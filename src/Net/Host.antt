-- ===== src/Net/Host.antt =====
-- The static variables of kernel/net/net.c and kernel/net/tcp.c, and what the two files take from the
-- network card and the timer. `rtl8139_send` and `rtl8139_recv` of kernel/drivers/rtl8139.c are
-- register I/O: a frame that is sent is kept in a list, and what arrives is a list of events.
use noverix.Base.{
  ℕ, ◌+◌, ◌-◌, ltb, leb, ◌&&◌, ◌||◌, if◌then◌else◌, Bool, false, Option, none, some, List, [], ◌∷◌,
  sub32,
}
use noverix.Memory.{Mem}

-- What `get_ticks` returns in the test of a loop, and what `rtl8139_recv` then finds.
pub record Event : Type 0 where
  pub now : ℕ
  pub frame : Option (Mem × ℕ)

pub record Sock : Type 0 where
  pub used : Bool
  pub state : ℕ
  pub dst_ip : ℕ
  pub dst_port : ℕ
  pub src_port : ℕ
  pub snd_nxt : ℕ
  pub rcv_nxt : ℕ
  pub snd_una : ℕ
  pub peer_window : ℕ
  pub rcv_buf : Mem
  pub rcv_len : ℕ
  pub isn : ℕ

-- `sends` is whether the card takes a frame, `sent` the frames that it was given, the last first.
pub record Host : Type 0 where
  pub own_mac : Mem
  pub arp_cache_ip : ℕ
  pub arp_cache_mac : Mem
  pub arp_cache_valid : Bool
  pub ping_reply_id : ℕ
  pub ping_reply_seq : ℕ
  pub ping_reply_received : Bool
  pub sockets : ℕ → Sock
  pub next_ephemeral : ℕ
  pub ticks : ℕ
  pub events : List Event
  pub sends : Bool
  pub sent : List (Mem × ℕ)

abbrev pub eth_arp : ℕ
eth_arp = 0x0806

abbrev pub eth_ip : ℕ
eth_ip = 0x0800

abbrev pub ip_icmp : ℕ
ip_icmp = 1

abbrev pub ip_tcp : ℕ
ip_tcp = 6

abbrev pub icmp_echo_req : ℕ
icmp_echo_req = 8

abbrev pub icmp_echo_rep : ℕ
icmp_echo_rep = 0

abbrev pub net_gw_ip : ℕ
net_gw_ip = 0x0A000202

abbrev pub net_host_ip : ℕ
net_host_ip = 0x0A00020F

abbrev pub net_netmask : ℕ
net_netmask = 0xFFFFFF00

-- `lib_memcpy(dst, src, n)` between two arrays.
unfoldable pub copy_bytes : Mem → (dst : ℕ) → Mem → (src n : ℕ) → Mem
copy_bytes m dst from src n k = if leb dst k && ltb k (dst + n) then from (src + (k - dst)) else m k

-- An array on the stack. Every byte of it that is sent is written before.
abbrev pub no_bytes : Mem
no_bytes k = 0

unfoldable pub rtl8139_send : Mem → (len : ℕ) → Host → Bool × Host
rtl8139_send pkt len h =
    if ltb len 14 || ltb 1514 len
    then (false, h)
    else (h.sends, record h { sent = (pkt, len) ∷ h.sent })

abbrev pub next_event : Host → Option (Event × Host)
next_event h = elim h.events [
  | [] ↦ none
  | e ∷ es ↦ some (e, record h { ticks = e.now; events = es })
]

-- One round of a loop `while ((get_ticks() - start) < limit)` with `rtl8139_recv` and `handle` in
-- it, none where the time is up. The events are as many as the loops need.
unfoldable pub poll_round :
    (handle : Mem → ℕ → Host → Host) → (start limit : ℕ) → Host → Option Host
poll_round handle start limit h = elim (next_event h) [
  | none ↦ none
  | some (e, t) ↦
      if ltb (sub32 e.now start) limit
      then some (elim e.frame [ none ↦ t | some (pkt, len) ↦ handle pkt len t ])
      else none
]
