-- ===== src/Net/Receive.antt =====
-- `net_parse_packet`, `net_arp_resolve` and `net_ping` of kernel/net/net.c, which call each other
-- through kernel/net/tcp.c.
use noverix.Base.{
  ℕ, zero, suc, ◌+◌, ◌*◌, ◌/◌, ◌==◌, ◌!=◌, ltb, ◌&&◌, ◌||◌, not, if◌then◌else◌, Bool, true, false,
  Option, none, some, u32, sub32, bit_and,
}
use noverix.Memory.{Mem, load16}
use noverix.Net.{net_htons, net_checksum}
use noverix.Net.Host.{
  Host, eth_arp, eth_ip, ip_icmp, ip_tcp, net_host_ip, net_gw_ip, net_netmask, copy_bytes,
  poll_round,
}
use noverix.Net.Arp.{send_arp_request, handle_arp, is_cached}
use noverix.Net.Icmp.{or_zero, ip_hlen, send_icmp_echo, handle_icmp}
use noverix.Net.Tcp.{tcp_handle_packet}

-- The checks of an IPv4 packet: version, lengths, no fragment, checksum.
unfoldable pub is_good_ip : Mem → (len : ℕ) → Bool
is_good_ip pkt len =
    let ip_total = net_htons (load16 pkt 16) in
    (pkt 14 / 16 == 4)
    && (not (ltb (ip_hlen pkt) 20)
        && (not (ltb len (14 + ip_hlen pkt))
            && (not (ltb ip_total (ip_hlen pkt) || ltb len (14 + ip_total))
                && ((bit_and (load16 pkt 20) 0x3F == 0)
                    && (or_zero (net_checksum pkt 14 (ip_hlen pkt)) == 0)))))

module _ (resolve : (ip : ℕ) → Host → Option Mem × Host) where
  -- The two protocols in an IPv4 packet that passed the checks.
  abbrev pub handle_ip : Mem → (len : ℕ) → Host → Host
  handle_ip pkt len h =
      let after_icmp =
        if (pkt 23 == ip_icmp) && not (ltb len (14 + ip_hlen pkt + 8))
        then handle_icmp pkt len h
        else h in
      if (pkt 23 == ip_tcp) && not (ltb len (14 + ip_hlen pkt + 20))
      then tcp_handle_packet resolve pkt len after_icmp
      else after_icmp

  -- True for 0, false for -1.
  unfoldable pub net_parse_packet : Mem → (len : ℕ) → Host → Bool × Host
  net_parse_packet pkt len h =
      let type = net_htons (load16 pkt 12) in
      if ltb len 14
      then (false, h)
      else if type == eth_arp
      then (true, if ltb len 42 then h else handle_arp pkt len h)
      else if type == eth_ip
      then (true, if ltb len 34 then h else if is_good_ip pkt len then handle_ip pkt len h else h)
      else (false, h)

-- The loop of `net_arp_resolve` for at most `rounds` rounds.
unfoldable pub arp_wait :
    (handle : Mem → ℕ → Host → Host) → (rounds ip start : ℕ) → Host → Option Mem × Host
arp_wait handle zero ip start h = (none, h)
arp_wait handle (suc n) ip start h = elim (poll_round handle start 50 h) [
  | none ↦ (none, h)
  | some t ↦ if is_cached t ip then (some t.arp_cache_mac, t) else arp_wait handle n ip start t
]

-- A packet that comes in while an address is waited for may be a segment whose answer needs an
-- address. `rounds` bounds the rounds of the loops within each other; the timer ends them in the C
-- code.
unfoldable pub net_arp_resolve : (rounds ip : ℕ) → Host → Option Mem × Host
net_arp_resolve zero ip h =
    if is_cached h ip then (some h.arp_cache_mac, h) else (none, send_arp_request ip h)
net_arp_resolve (suc n) ip h =
    let handle : Mem → ℕ → Host → Host =
      λ pkt len t. (net_parse_packet (λ a u. net_arp_resolve n a u) pkt len t).1 in
    let asked = send_arp_request ip h in
    if is_cached h ip then (some h.arp_cache_mac, h) else arp_wait handle n ip asked.ticks asked

abbrev pub receive : (rounds : ℕ) → Mem → (len : ℕ) → Host → Host
receive rounds pkt len h = (net_parse_packet (net_arp_resolve rounds) pkt len h).1

-- The loop of `net_ping`: `*rtt_ms` where an answer came.
unfoldable pub ping_wait :
    (handle : Mem → ℕ → Host → Host) → (rounds start limit : ℕ) → Host → Option ℕ × Host
ping_wait handle zero start limit h = (none, h)
ping_wait handle (suc n) start limit h = elim (poll_round handle start limit h) [
  | none ↦ (none, h)
  | some t ↦
      if t.ping_reply_received
      then (some (u32 (sub32 t.ticks start * 10)), t)
      else ping_wait handle n start limit t
]

abbrev pub ping_target : (dst_ip : ℕ) → ℕ
ping_target dst_ip =
    if bit_and dst_ip net_netmask != bit_and net_host_ip net_netmask then net_gw_ip else dst_ip

-- `lib_memcpy(arp_cache_mac, gw_mac, 6)` and the rest, up to the loop.
unfoldable pub ping_gateway :
    (rounds dst_ip timeout_ms : ℕ) → (gw_mac : Mem) → Host → Option ℕ × Host
ping_gateway rounds dst_ip timeout_ms gw_mac h =
    let ready = record h {
      arp_cache_mac = copy_bytes h.arp_cache_mac 0 gw_mac 0 6;
      arp_cache_ip = ping_target dst_ip;
      arp_cache_valid = true;
      ping_reply_received = false;
    } in
    ping_wait (receive rounds) rounds ready.ticks (u32 (timeout_ms + 9) / 10)
      (send_icmp_echo dst_ip 0x1234 1 ready)

-- Some round-trip time for 0, none for -1; the address is asked for twice.
unfoldable pub net_ping : (rounds dst_ip timeout_ms : ℕ) → Host → Option ℕ × Host
net_ping rounds dst_ip timeout_ms h =
    let first = net_arp_resolve rounds (ping_target dst_ip) h in
    let second = net_arp_resolve rounds (ping_target dst_ip) first.1 in
    elim first.0 [
      | some mac ↦ ping_gateway rounds dst_ip timeout_ms mac first.1
      | none ↦ elim second.0 [
        | some mac ↦ ping_gateway rounds dst_ip timeout_ms mac second.1
        | none ↦ (none, second.1)
      ]
    ]
