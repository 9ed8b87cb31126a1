-- ===== src/Net/Handshake.antt =====
-- What `tcp_handle_packet` of kernel/net/tcp.c does with a segment that resets or opens a connection.
use noverix.Base.{
  ℕ, ◌+◌, ◌≡◌, inl, inr, refl, arith, ◌==◌, ◌!=◌, ◌&&◌, Bool, true, false, Option, update,
  update_self, u32, Bool-cases, ap, ◌∙◌,
}
use noverix.Memory.{Mem}
use noverix.Net.Host.{Sock, Host}
use noverix.Net.Arp.{is_cached}
use noverix.Net.Tcp.{set_sock, has, on_syn_sent, on_segment, tcp_handle_packet}
use noverix.Net.Receive.{net_arp_resolve}
use noverix.Net.Segments.{
  IsSegment, seq_of, ack_of, window_of, flags_of, on_segment_lem, send_ack-sockets,
}

-- The answer that a connecting socket waits for: SYN and ACK, with the number that it sent.
abbrev pub opens : Host → Mem → (i : ℕ) → Bool
opens h pkt i =
    (has (flags_of pkt) 0x02 && has (flags_of pkt) 0x10) && (ack_of pkt == (h.sockets i).snd_nxt)

-- The socket that is connected by it.
abbrev pub connected : Sock → Mem → Sock
connected sock pkt = record sock {
  rcv_nxt = u32 (seq_of pkt + 1);
  snd_una = ack_of pkt;
  peer_window = window_of pkt;
  state = 2;
}

-- The host after a segment, by the three ways that it is taken by a connecting socket.
pub record IsHandshake (h t : Host) (pkt : Mem) (i : ℕ) : Type 0 where
  pub reset : has (flags_of pkt) 0x04 ≡ true → t ≡ set_sock i (record (h.sockets i) { state = 0 }) h
  pub open_lem :
      has (flags_of pkt) 0x04 ≡ false
      → opens h pkt i ≡ true
      → t.sockets ≡ update h.sockets i (connected (h.sockets i) pkt)
  pub other : has (flags_of pkt) 0x04 ≡ false → opens h pkt i ≡ false → t ≡ h

module _ (rounds : ℕ) (h : Host) (pkt : Mem) (len i : ℕ) where
  abbrev resolve : ℕ → Host → Option Mem × Host
  resolve = net_arp_resolve rounds

  on_syn_sent-connected :
      is_cached h ((h.sockets i).dst_ip) ≡ true
      → opens h pkt i ≡ true
      → (on_syn_sent resolve i (flags_of pkt) (seq_of pkt) (ack_of pkt) (window_of pkt) h).sockets
        ≡ update h.sockets i (connected (h.sockets i) pkt)
  unfolding on_syn_sent
  on_syn_sent-connected c o =
      let both : (has (flags_of pkt) 0x02 && has (flags_of pkt) 0x10) ≡ true = ground (arith, o) in
      let right : (ack_of pkt != (h.sockets i).snd_nxt) ≡ false = ground (arith, o) in
      let next : Sock = connected (h.sockets i) pkt in
      let dst : (update h.sockets i next i).dst_ip ≡ (h.sockets i).dst_ip =
        ap (λ s. s.dst_ip) (update_self h.sockets i next) in
      rw (both, right) (send_ack-sockets rounds i (set_sock i next h) (ap (is_cached h) dst ∙ c))

  on_syn_sent_other :
      opens h pkt i ≡ false
      → on_syn_sent resolve i (flags_of pkt) (seq_of pkt) (ack_of pkt) (window_of pkt) h ≡ h
  unfolding on_syn_sent
  on_syn_sent_other o = elim (Bool-cases (has (flags_of pkt) 0x02 && has (flags_of pkt) 0x10)) [
    | inr e ↦ rw e refl
    | inl e ↦
        let wrong : (ack_of pkt != (h.sockets i).snd_nxt) ≡ true = ground (arith, o, e) in
        rw (e, wrong) refl
  ]

-- A segment for a socket that is connecting and whose peer's hardware address is cached: RST closes
-- the socket; SYN with ACK of the number that was sent makes it established, with the peer's next
-- number and window; any other segment changes nothing. No other socket changes.
pub tcp_handle_packet-IsHandshake :
    (rounds : ℕ) (h : Host) (pkt : Mem) (len i : ℕ)
    → IsSegment h pkt len i
    → is_cached h ((h.sockets i).dst_ip) ≡ true
    → (h.sockets i).state ≡ 1
    → IsHandshake h (tcp_handle_packet (net_arp_resolve rounds) pkt len h) pkt i
unfolding on_segment
tcp_handle_packet-IsHandshake rounds h pkt len i v cached state =
    let taken = on_segment_lem rounds h pkt len i v in
    let connecting : ((h.sockets i).state == 1) ≡ true = ground arith in
    record {
      reset = λ r. taken ∙ rw r refl;
      open_lem = λ r o.
          ap (λ t. t.sockets) taken
          ∙ rw (r, connecting) (on_syn_sent-connected rounds h pkt len i cached o);
      other = λ r o. taken ∙ rw (r, connecting) (on_syn_sent_other rounds h pkt len i o);
    }
