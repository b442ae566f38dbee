-- ===== src/Socks/Addr.antt =====
-- `Addr` of m_socks/socks5.go: an address as the protocol writes it, and the routines that cut it from
-- a slice, read it from a connection, and turn it into text and back.
pub mod Wire
pub mod Split
pub mod Reading
pub mod Agreement
use miniproxygo.Common.{
  ℕ, zero, suc, ◌+◌, ◌-◌, ◌*◌, ◌/◌, ◌%◌, Option, none, some, List, [], ◌∷◌, ◌++◌, length, take,
  drop, get_or, replicate, slice, splice, copy_at, if◌then◌else◌, ltb, ◌==◌, Bool, true, false,
}
use miniproxygo.Io.{Error, Reader, is_nil, read_full}
use miniproxygo.Socks.Strconv.{itoa, parse_uint}

abbrev pub atyp_ipv4 : ℕ
atyp_ipv4 = 1

abbrev pub atyp_domain : ℕ
atyp_domain = 3

abbrev pub atyp_ipv6 : ℕ
atyp_ipv6 = 4

-- `net.IPv4len` and `net.IPv6len`
abbrev pub ipv4_len : ℕ
ipv4_len = 4

abbrev pub ipv6_len : ℕ
ipv6_len = 16

-- `MaxAddrLen`
abbrev pub max_addr_len : ℕ
max_addr_len = 1 + 1 + 255 + 2

-- `Error(n)`
abbrev pub err_command_not_supported : Error
err_command_not_supported = Error.socks 7

abbrev pub err_address_not_supported : Error
err_address_not_supported = Error.socks 8

abbrev pub info_udp_associate : Error
info_udp_associate = Error.socks 9

-- The length that the first bytes of `b` announce, or `none` where `SplitAddr` gives up before its
-- last test.
abbrev announced : List ℕ → Option ℕ
announced b =
    if ltb (length b) 1
    then none
    else if get_or b 0 0 == atyp_domain
    then if ltb (length b) 2 then none else some (1 + 1 + get_or b 1 0 + 2)
    else if get_or b 0 0 == atyp_ipv4
    then some (1 + ipv4_len + 2)
    else if get_or b 0 0 == atyp_ipv6
    then some (1 + ipv6_len + 2)
    else none

abbrev cut : Option ℕ → List ℕ → Option (List ℕ)
cut none b = none
cut (some n) b = if ltb (length b) n then none else some (take n b)

-- `SplitAddr`
unfoldable pub split_addr : List ℕ → Option (List ℕ)
split_addr b = cut (announced b) b

-- What a read into a part of a buffer leaves: the buffer, the error, the reader.
pub record Filled (S : Type 0) : Type 0 where
  pub buf : List ℕ
  pub err : Option Error
  pub next : S

-- What a routine returns that reads an address.
pub record Parsed (S : Type 0) : Type 0 where
  pub addr : List ℕ
  pub err : Option Error
  pub next : S

module _ {S : Type 0} (r : Reader S) where
  -- `io.ReadFull(r, b[lo:lo+n])`
  unfoldable pub fill : ℕ → ℕ → List ℕ → S → Filled S
  fill lo n b s =
      let x = read_full r n s in record { buf = splice lo x.got b; err = x.err; next = x.next }

  -- The bytes behind the address type: `lo` of `total` are in the buffer.
  abbrev pub read_rest : ℕ → ℕ → List ℕ → S → Parsed S
  read_rest lo total b s =
      let x = fill lo (total - lo) b s in
      record { addr = take total x.buf; err = x.err; next = x.next }

  -- The `case ATYPDomain` of `readAddr`.
  abbrev pub read_domain : List ℕ → S → Parsed S
  read_domain b s =
      let x = fill 1 1 b s in
      if is_nil x.err
      then read_rest 2 (1 + 1 + get_or x.buf 1 0 + 2) x.buf x.next
      else record { addr = []; err = x.err; next = x.next }

  -- The `switch` of `readAddr`.
  unfoldable pub read_by_type : List ℕ → S → Parsed S
  read_by_type b s =
      if get_or b 0 0 == atyp_domain
      then read_domain b s
      else if get_or b 0 0 == atyp_ipv4
      then read_rest 1 (1 + ipv4_len + 2) b s
      else if get_or b 0 0 == atyp_ipv6
      then read_rest 1 (1 + ipv6_len + 2) b s
      else record { addr = []; err = some err_address_not_supported; next = s }

  -- `readAddr(r, b)`
  unfoldable pub read_addr_into : List ℕ → S → Parsed S
  read_addr_into b s =
      let x = fill 0 1 b s in
      if ltb (length b) max_addr_len
      then record { addr = []; err = some Error.short_buffer; next = s }
      else if is_nil x.err
      then read_by_type x.buf x.next
      else record { addr = []; err = x.err; next = x.next }

  -- `ReadAddr`
  unfoldable pub read_addr : S → Parsed S
  read_addr s = read_addr_into (replicate max_addr_len 0) s

-- Go's `net` on addresses as text, which is taken as it is: `SplitHostPort`, `JoinHostPort`,
-- `ParseIP`, `IP.To4` and `IP.String`.
pub record Net : Type 0 where
  pub split_host_port : List ℕ → Option (List ℕ × List ℕ)
  pub join_host_port : List ℕ → List ℕ → List ℕ
  pub parse_ip : List ℕ → Option (List ℕ)
  pub to4 : List ℕ → Option (List ℕ)
  pub ip_string : List ℕ → List ℕ

module _ (net : Net) where
  -- The port `(int(a[i]) << 8) | int(a[i+1])` as text; the parts do not overlap, so `|` adds.
  abbrev pub port_at : ℕ → List ℕ → List ℕ
  port_at i a = itoa (get_or a i 0 * 256 + get_or a (i + 1) 0)

  -- `Addr.String` on an address that is not cut short: Go panics where an index is out of range.
  unfoldable pub to_string : List ℕ → List ℕ
  to_string a =
      let n = get_or a 1 0 in
      if get_or a 0 0 == atyp_domain
      then net.join_host_port (slice 2 (2 + n) a) (port_at (2 + n) a)
      else if get_or a 0 0 == atyp_ipv4
      then net.join_host_port (net.ip_string (slice 1 (1 + ipv4_len) a)) (port_at (1 + ipv4_len) a)
      else if get_or a 0 0 == atyp_ipv6
      then net.join_host_port (net.ip_string (slice 1 (1 + ipv6_len) a)) (port_at (1 + ipv6_len) a)
      else net.join_host_port [] []

  -- `addr[0] = atyp; copy(addr[1:], ip)` in a new slice of the right length.
  abbrev ip_addr : ℕ → ℕ → List ℕ → List ℕ
  ip_addr atyp len ip = copy_at 1 ip (splice 0 (atyp ∷ []) (replicate (1 + len + 2) 0))

  abbrev domain_addr : List ℕ → List ℕ
  domain_addr host =
      copy_at 2 host
        (splice 0 (atyp_domain ∷ (length host % 256) ∷ []) (replicate (1 + 1 + length host + 2) 0))

  abbrev host_addr : List ℕ → Option (List ℕ) → Option (List ℕ)
  host_addr host none = if ltb 255 (length host) then none else some (domain_addr host)
  host_addr host (some ip) = elim (net.to4 ip) [
    | some ip4 ↦ some (ip_addr atyp_ipv4 ipv4_len ip4)
    | none ↦ some (ip_addr atyp_ipv6 ipv6_len ip)
  ]

  -- `addr[len(addr)-2], addr[len(addr)-1] = byte(portnum>>8), byte(portnum)`
  abbrev with_port : Option (List ℕ) → Option ℕ → Option (List ℕ)
  with_port none port = none
  with_port (some addr) none = none
  with_port (some addr) (some p) =
      some (splice (length addr - 2) ((p / 256 % 256) ∷ (p % 256) ∷ []) addr)

  -- `ParseAddr`
  unfoldable pub parse_addr : List ℕ → Option (List ℕ)
  parse_addr s = elim (net.split_host_port s) [
    | none ↦ none
    | some (host, port) ↦ with_port (host_addr host (net.parse_ip host)) (parse_uint port)
  ]
