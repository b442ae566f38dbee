-- ===== src/Lib.antt =====
-- miniproxygo is a proxy in two halves. The local half speaks SOCKS 5 with a client, learns the
-- target's address from it, and sends address and data over an encrypted stream (Shadowsocks AEAD)
-- to the remote half, which reads the address, connects to the target and relays. Each module is
-- about one Go file or one type of it.
--
-- - Common (with Tests, Lists and Slices): Boolean tests on numbers, lists indexed by the native
--   numbers, Go's slices. `splice at new xs` writes `new` into `xs` from index `at` on, as a `copy`
--   or a read into a subslice does; a byte is a number below 256.
-- - Io: Go's `io.Reader`, `io.Writer`, `io.ReadFull` as functions on the state of the object that
--   is read or written, so the aliasing of the Go code is the sharing of that state. Io.Network is
--   a connection (`net.Conn`): the input in the pieces in which the network delivers it, faults
--   between them, the output, and writes that are refused. Io.Buffer is `bytes.Buffer`. Io.Full is
--   about `io.ReadFull` and the pieces, Io.Feeds about it where the input may fail on the way.
-- - Shadow: m_shadow/stream.go. Shadow.Aead is Go's `cipher.AEAD`, a parameter; Shadow.Nonce is
--   `increment`; Shadow.Frame describes the format of the stream; Shadow.Writer is `writer`
--   (`newWriter`, `Write`, `ReadFrom`), Shadow.Reader is `reader` (`newReader`, `read`, `Read`),
--   with the buffers that they encrypt and decrypt in place; Shadow.RoundTrip joins the two, and
--   Shadow.Distinct is about the nonces of the writer.
-- - Internal: m_internal. Internal.BloomRing is m_internal/bloomring.go, a ring of Bloom filters
--   behind a lock, and Internal.Fnv its hash; Internal.SaltFilter is m_internal/saltfilter.go, the
--   ring that the whole process shares. Internal.Filter is the Bloom filter itself
--   (github.com/riobard/go-bloom), a parameter. Internal.Outcome says how a call ends: it returns,
--   panics, or waits for ever for a lock.
-- - Shadow, continued: Shadow.Reader.WriteTo is `reader.WriteTo`, Shadow.Cipher is
--   m_shadow/cipher.go, Shadow.Conn is `streamConn` with its two salts (Shadow.Conn.EndToEnd: both
--   ends of a connection; Shadow.Conn.Source: a `streamConn` as the reader of `ReadAddr`;
--   Shadow.Conn.Both: a `streamConn` in both directions at once), Shadow.Packet is
--   m_shadow/packet.go.
-- - Core: m_core/cipher.go. Core.Kdf is `kdf`, Core.Pick is `PickCipher`.
-- - Socks: m_socks/socks5.go. Socks.Addr has `Addr.String`, `ParseAddr`, `readAddr`, `ReadAddr` and
--   `SplitAddr`, Socks.HandShake has `HandShake`; Socks.Strconv is the part of `strconv` that they
--   use, and Go's `net` on addresses as text is a parameter. Socks.Handler is m_socks/handler.go,
--   an older server of the same protocol: `Serv` with `Resolve`, the responses and `connect`, and
--   `Relay`, whose two goroutines take steps as those of Server.Relay do, without a read timeout.
--
-- - Server: m_server/socks_server.go. Server.Cork is `corkedConn`, with the part of Go's
--   `bufio.Writer` that it uses, and Server.Cork.Timed the same with the turns of its timer, as a
--   connection (Server.Cork.Contract: in both directions); Server.Accept is `delayCalc` and the loop of `ServeLocal`;
--   Server.Tunnel is the goroutine of a connection in `ServeLocal` and in `ServeServer`, up to the
--   call of `relay`; what it puts around a connection, `timedCork`, is an argument of it
--   (Server.Tunnel.Joined: both halves, with `timedCork`; Server.Tunnel.Relays: each half on through
--   `relay`); Server.Relay is `relay`, as the steps that its two goroutines take in any order, with
--   a round of `io.Copy` as a parameter. `io.Copy` calls `WriteTo` or `ReadFrom` where a connection
--   has it, as `streamConn` does: Server.Relay.Encrypted has a round of the loops of these two,
--   Server.Relay.Plain that of the loop over `Read` and `Write`. A read times out at the start of a
--   round. Server.Relay.Encrypted.Rounds and RoundsIn are about these rounds and `write_conn_to`
--   and `read_conn_from`, the models of the two methods.
-- - Server.Start: m_server/server.go, with its settings and its shutdown. Config:
--   m_config/config.go. Proxy: proxy.go. Go's `int` and `time.Duration` are integers (Common.Ints)
--   with their wrap-around.
--
-- - Util: `RandStringBytesMaskImprSrc` of m_util/utils.go, over a source of random words that is a
--   parameter. The fuel of its loop is an argument, since it is the source that decides how long it
--   goes on.
--
-- The modules named Runs hold the concrete inputs.
--
-- Fuel: the loop of `io.ReadFull` and the loop of `ReadFrom` get one round more than the source's
-- budget, a bound on its reads to the end of the input. For a network connection that is the number
-- of pieces and bytes to come. Over a source that keeps the contract `Delivers` it is shown to be
-- enough: the results never carry the error `diverged`. `kdf` gets a round more than the key has
-- bytes, since a round appends a whole hash. `bufio.Writer.Write` gets two more than its argument
-- has bytes: it needs three at most.
--
-- What the code takes from elsewhere is a parameter with its documented behaviour as hypotheses:
-- the AEAD (`IsAead`: `Open` undoes `Seal`, and a box is `Overhead()` bytes longer), the Bloom
-- filter (`IsFilter`: no false negatives, and a new filter is empty), MD5 (16 bytes), HKDF, floats
-- and environment variables.
--
-- The steps of `relay` need no fuel: the number of steps from its start is bounded instead.
--
-- Not modelled: m_bufio (a copy of Go's `bufio` that nothing uses), m_core/stream.go and
-- m_core/packet.go (which nothing calls), logging, the parsing of the configuration file and of the
-- command line, and time: a pause is recorded, and a deadline is a read that may fail once it has
-- been set.
pub mod Common
pub mod Io
pub mod Internal
pub mod Shadow
pub mod Core
pub mod Socks
pub mod Server
pub mod Util
pub mod Config
pub mod Proxy
