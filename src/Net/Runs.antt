-- ===== src/Net/Runs.antt =====
-- The states that a host reaches by the packets and the calls of kernel/net/net.c and kernel/net/tcp.c.
use noverix.Base.{ℕ, inl, arith, List, Bool}
use noverix.Memory.{Mem}
use noverix.Net.Host.{Event, Host}
use noverix.Net.Receive.{net_arp_resolve, receive, net_ping}
use noverix.Net.Sockets.{tcp_init, tcp_connect, tcp_send, tcp_recv, tcp_close}
use noverix.Net.Sane.{IsSane}
use noverix.Net.SaneReceive.{net_arp_resolve-IsSane, receive-IsSane, net_ping-IsSane}
use noverix.Net.SaneSockets.{tcp_connect-IsSane, tcp_send-IsSane, tcp_recv-IsSane, tcp_close-IsSane}

-- `outside` is what happens between the calls: time, the frames to come, and whether the card sends.
pub data Reachable : Host → Type 0 where
  initialised : (h : Host) → Reachable (tcp_init h)
  outside :
      (h : Host) (now : ℕ) (events : List Event) (sends : Bool)
      → Reachable h
      → Reachable (record h { ticks = now; events = events; sends = sends })
  parsed :
      (h : Host) (rounds : ℕ) (pkt : Mem) (len : ℕ)
      → Reachable h
      → Reachable (receive rounds pkt len h)
  resolved : (h : Host) (rounds ip : ℕ) → Reachable h → Reachable (net_arp_resolve rounds ip h).1
  pinged :
      (h : Host) (rounds ip timeout_ms : ℕ)
      → Reachable h
      → Reachable (net_ping rounds ip timeout_ms h).1
  connected :
      (h : Host) (rounds ip port timeout_ms : ℕ)
      → Reachable h
      → Reachable (tcp_connect rounds ip port timeout_ms h).1
  pushed :
      (h : Host) (rounds i : ℕ) (text : Mem) (len timeout_ms : ℕ)
      → Reachable h
      → Reachable (tcp_send rounds i text len timeout_ms h).1
  taken :
      (h : Host) (rounds i max_len timeout_ms : ℕ)
      → Reachable h
      → Reachable (tcp_recv rounds i max_len timeout_ms h).1
  closed : (h : Host) (rounds i : ℕ) → Reachable h → Reachable (tcp_close rounds i h)

tcp_init-IsSane : (h : Host) → IsSane (tcp_init h)
unfolding tcp_init
tcp_init-IsSane h i = (inl (omega arith), omega arith)

-- In every state that packets and calls lead to, whatever the packets hold, each socket is in one of
-- the states TCP_CLOSED, TCP_SYN_SENT, TCP_ESTABLISHED, TCP_FIN_WAIT_1 and TCP_CLOSE_WAIT, and holds
-- no more bytes than its buffer has room for.
pub Reachable-IsSane : (h : Host) → Reachable h → IsSane h
Reachable-IsSane h (initialised t) = tcp_init-IsSane t
Reachable-IsSane h (outside t now events sends r) = λ i. Reachable-IsSane t r i
Reachable-IsSane h (parsed t rounds pkt len r) =
    receive-IsSane rounds pkt len t (Reachable-IsSane t r)
Reachable-IsSane h (resolved t rounds ip r) =
    net_arp_resolve-IsSane rounds ip t (Reachable-IsSane t r)
Reachable-IsSane h (pinged t rounds ip ms r) = net_ping-IsSane rounds ip ms t (Reachable-IsSane t r)
Reachable-IsSane h (connected t rounds ip port ms r) =
    tcp_connect-IsSane rounds ip port ms t (Reachable-IsSane t r)
Reachable-IsSane h (pushed t rounds i text len ms r) =
    tcp_send-IsSane rounds i text len ms t (Reachable-IsSane t r)
Reachable-IsSane h (taken t rounds i max_len ms r) =
    tcp_recv-IsSane rounds i max_len ms t (Reachable-IsSane t r)
Reachable-IsSane h (closed t rounds i r) = tcp_close-IsSane rounds i t (Reachable-IsSane t r)
