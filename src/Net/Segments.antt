-- ===== src/Net/Segments.antt =====
-- The fields of a segment, and how `tcp_handle_packet` of kernel/net/tcp.c goes on with it.
use noverix.Base.{
  ℕ, zero, suc, ◌+◌, ◌-◌, ◌*◌, ◌/◌, ◌%◌, ◌^◌, ◌≤◌, ◌<◌, ◌≡◌, ◌≢◌, inl, inr, refl, arith, ◌==◌, ltb,
  ◌&&◌, ◌||◌, min, Bool, true, false, Option, none, some, update, update_self, u32, Bool-cases, ap,
  ◌∙◌,
}
use noverix.Memory.{Mem, load16, load32}
use noverix.Net.{net_htons, net_htonl}
use noverix.Net.Host.{Sock, Host, rtl8139_send, copy_bytes, no_bytes}
use noverix.Net.Arp.{is_cached}
use noverix.Net.Icmp.{ip_hlen}
use noverix.Net.Tcp.{
  set_sock, segment, send_tcp_segment, send_ack, has, on_ack, on_data, on_segment,
  tcp_handle_packet, find_sock_by_port,
}
use noverix.Net.Receive.{net_arp_resolve}

-- The fields of a frame.
abbrev pub tcp_at : Mem → ℕ
tcp_at pkt = 14 + ip_hlen pkt

abbrev pub ip_total_of : Mem → ℕ
ip_total_of pkt = net_htons (load16 pkt 16)

abbrev pub tcp_hlen_of : Mem → ℕ
tcp_hlen_of pkt = pkt (tcp_at pkt + 12) / 2 ^ 4 % 16 * 4

abbrev pub seq_of : Mem → ℕ
seq_of pkt = net_htonl (load32 pkt (tcp_at pkt + 4))

abbrev pub ack_of : Mem → ℕ
ack_of pkt = net_htonl (load32 pkt (tcp_at pkt + 8))

abbrev pub window_of : Mem → ℕ
window_of pkt = net_htons (load16 pkt (tcp_at pkt + 14))

abbrev pub flags_of : Mem → ℕ
flags_of pkt = pkt (tcp_at pkt + 13)

abbrev pub text_at : Mem → ℕ
text_at pkt = tcp_at pkt + tcp_hlen_of pkt

abbrev pub text_len : Mem → ℕ
text_len pkt = 14 + ip_total_of pkt - tcp_at pkt - tcp_hlen_of pkt

-- A frame whose lengths are right and whose port is that of the socket `i`.
pub record IsSegment (h : Host) (pkt : Mem) (len i : ℕ) : Type 0 where
  pub ip_header : 20 ≤ ip_hlen pkt
  pub long : tcp_at pkt + 20 ≤ len
  pub whole : 14 + ip_total_of pkt ≤ len
  pub port : find_sock_by_port h (net_htons (load16 pkt (tcp_at pkt + 2))) ≡ some i
  pub tcp_header : 20 ≤ tcp_hlen_of pkt
  pub inside : tcp_at pkt + tcp_hlen_of pkt ≤ 14 + ip_total_of pkt

rtl8139_send-sockets :
    (pkt : Mem) (len : ℕ) (h : Host) → (rtl8139_send pkt len h).1.sockets ≡ h.sockets
unfolding rtl8139_send
rtl8139_send-sockets pkt len h = elim (Bool-cases (ltb len 14 || ltb 1514 len)) [
  | inl e ↦ rw e refl
  | inr e ↦ rw e refl
]

net_arp_resolve-is_cached :
    (rounds ip : ℕ) (h : Host)
    → is_cached h ip ≡ true
    → net_arp_resolve rounds ip h ≡ (some h.arp_cache_mac, h)
unfolding net_arp_resolve
net_arp_resolve-is_cached zero ip h e = rw (net_arp_resolve, e) refl
net_arp_resolve-is_cached (suc n) ip h e = rw (net_arp_resolve, e) refl

module _ (rounds : ℕ) where
  abbrev resolve : ℕ → Host → Option Mem × Host
  resolve = net_arp_resolve rounds

  pub send_ack-sockets :
      (i : ℕ) (h : Host)
      → is_cached h ((h.sockets i).dst_ip) ≡ true
      → (send_ack resolve i h).sockets ≡ h.sockets
  unfolding send_tcp_segment
  send_ack-sockets i h c =
      let pkt : Mem = segment h (h.sockets i) 0x10 no_bytes 0 in
      ap
        (λ r.
          (elim r.0 as (λ x. Bool × Host) [
            | none ↦ (false, r.1)
            | some mac ↦ rtl8139_send (copy_bytes pkt 0 mac 0 6) 54 r.1
          ]).1.sockets)
        (net_arp_resolve-is_cached rounds ((h.sockets i).dst_ip) h c)
      ∙ rtl8139_send-sockets (copy_bytes pkt 0 h.arp_cache_mac 0 6) 54 h

  pub on_segment_lem :
      (h : Host) (pkt : Mem) (len i : ℕ)
      → IsSegment h pkt len i
      → tcp_handle_packet resolve pkt len h
        ≡ on_segment resolve pkt i (tcp_at pkt) (text_at pkt) (text_len pkt) h
  unfolding tcp_handle_packet
  on_segment_lem h pkt len i v =
      let a : ltb (ip_hlen pkt) 20 ≡ false = ground (arith, v.ip_header) in
      let b : ltb len (tcp_at pkt + 20) ≡ false = ground (arith, v.long) in
      let c : ltb len (14 + ip_total_of pkt) ≡ false = ground (arith, v.whole) in
      let d : (ltb (tcp_hlen_of pkt) 20
            || ltb (14 + ip_total_of pkt) (tcp_at pkt + tcp_hlen_of pkt))
          ≡ false =
        ground (arith, v.tcp_header, v.inside) in
      rw (a, b, c, v.port, d) refl

  -- The socket with the text of an in-order segment.
  abbrev pub with_text : Sock → Mem → (seq off n : ℕ) → Sock
  with_text sock pkt seq off n = record sock {
    rcv_buf = copy_bytes sock.rcv_buf 0 pkt off (min n 1460);
    rcv_len = min n 1460;
    rcv_nxt = u32 (seq + min n 1460);
  }

  pub on_data-sockets :
      (g : Host) (pkt : Mem) (i seq off n : ℕ)
      → is_cached g ((g.sockets i).dst_ip) ≡ true
      → 0 < n
      → seq ≡ (g.sockets i).rcv_nxt
      → (on_data resolve pkt i seq off n g).sockets
        ≡ update g.sockets i (with_text (g.sockets i) pkt seq off n)
  unfolding on_data
  on_data-sockets g pkt i seq off n c some_text e =
      let in_order : (ltb 0 n && (seq == (g.sockets i).rcv_nxt)) ≡ true = ground arith in
      let next : Sock = with_text (g.sockets i) pkt seq off n in
      let dst : (update g.sockets i next i).dst_ip ≡ (g.sockets i).dst_ip =
        ap (λ s. s.dst_ip) (update_self g.sockets i next) in
      rw in_order (send_ack-sockets i (set_sock i next g) (ap (is_cached g) dst ∙ c))

  pub on_data_ignored :
      (g : Host) (pkt : Mem) (i seq off n : ℕ)
      → (ltb 0 n && (seq == (g.sockets i).rcv_nxt)) ≡ false
      → on_data resolve pkt i seq off n g ≡ g
  unfolding on_data
  on_data_ignored g pkt i seq off n e = rw e refl

  -- What a segment with neither RST nor FIN is for a socket that is not connecting.
  pub on_segment_data :
      (h : Host) (pkt : Mem) (len i : ℕ)
      → IsSegment h pkt len i
      → has (flags_of pkt) 0x04 ≡ false
      → (h.sockets i).state ≢ 1
      → has (flags_of pkt) 0x01 ≡ false
      → tcp_handle_packet resolve pkt len h
        ≡ on_data resolve pkt i
            (seq_of pkt)
            (text_at pkt)
            (text_len pkt)
            (on_ack i (flags_of pkt) (ack_of pkt) (window_of pkt) h)
  unfolding on_segment
  on_segment_data h pkt len i v no_rst state no_fin =
      let open_state : ((h.sockets i).state == 1) ≡ false = ground arith in
      on_segment_lem h pkt len i v ∙ rw (no_rst, open_state, no_fin) refl
