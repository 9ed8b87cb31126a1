-- ===== src/Net/Received.antt =====
-- What `tcp_handle_packet` of kernel/net/tcp.c does with the text of a segment.
use noverix.Base.{
  ℕ, ◌+◌, ◌<◌, ◌≡◌, ◌≢◌, ◌⊎◌, inl, inr, refl, arith, ◌==◌, ltb, ◌&&◌, min, true, false, update,
  update_self, update_ne, u32, Bool-cases, ap, sym, ◌∙◌,
}
use noverix.Memory.{Mem}
use noverix.Net.Host.{Sock, Host, copy_bytes}
use noverix.Net.Arp.{is_cached}
use noverix.Net.Tcp.{set_sock, has, on_ack, tcp_handle_packet}
use noverix.Net.Receive.{net_arp_resolve}
use noverix.Net.Segments.{
  IsSegment, seq_of, ack_of, window_of, flags_of, text_at, text_len, with_text, on_data-sockets,
  on_data_ignored, on_segment_data,
}

-- What the acknowledgement in a segment leaves alone.
record Acknowledged (h g : Host) (i : ℕ) : Type 0 where
  others : (j : ℕ) → i ≢ j → g.sockets j ≡ h.sockets j
  state : (g.sockets i).state ≡ (h.sockets i).state
  rcv_nxt : (g.sockets i).rcv_nxt ≡ (h.sockets i).rcv_nxt
  rcv_len : (g.sockets i).rcv_len ≡ (h.sockets i).rcv_len
  rcv_buf : (g.sockets i).rcv_buf ≡ (h.sockets i).rcv_buf
  cached : is_cached g ((g.sockets i).dst_ip) ≡ is_cached h ((h.sockets i).dst_ip)

set_sock-Acknowledged :
    (h : Host) (i ack window : ℕ)
    → Acknowledged h (set_sock i (record (h.sockets i) { snd_una = ack; peer_window = window }) h) i
set_sock-Acknowledged h i ack window =
    let sock : Sock = record (h.sockets i) { snd_una = ack; peer_window = window } in
    let self : update h.sockets i sock i ≡ sock = update_self h.sockets i sock in
    record {
      others = λ j n. update_ne h.sockets i j sock n;
      state = ap (λ s. s.state) self;
      rcv_nxt = ap (λ s. s.rcv_nxt) self;
      rcv_len = ap (λ s. s.rcv_len) self;
      rcv_buf = ap (λ s. s.rcv_buf) self;
      cached = ap (λ s. is_cached h s.dst_ip) self;
    }

on_ack-Acknowledged :
    (h : Host) (i flags ack window : ℕ) → Acknowledged h (on_ack i flags ack window h) i
on_ack-Acknowledged h i flags ack window = elim (Bool-cases (has flags 0x10)) [
  | inl e ↦ rw e (set_sock-Acknowledged h i ack window)
  | inr e ↦ rw e (record {
    others = λ j n. refl;
    state = refl;
    rcv_nxt = refl;
    rcv_len = refl;
    rcv_buf = refl;
    cached = refl;
  })
]

-- The socket `i` after a segment: the bytes of its text if it has text and is the next one, and
-- otherwise what it held.
pub record IsReceived (h t : Host) (pkt : Mem) (i : ℕ) : Type 0 where
  pub others : (j : ℕ) → i ≢ j → t.sockets j ≡ h.sockets j
  pub state : (t.sockets i).state ≡ (h.sockets i).state
  pub in_order :
      seq_of pkt ≡ (h.sockets i).rcv_nxt
      → 0 < text_len pkt
      → ((t.sockets i).rcv_len ≡ min (text_len pkt) 1460)
        × ((t.sockets i).rcv_nxt ≡ u32 (seq_of pkt + min (text_len pkt) 1460))
        × ((k : ℕ) → k < min (text_len pkt) 1460 → (t.sockets i).rcv_buf k ≡ pkt (text_at pkt + k))
  pub otherwise :
      (seq_of pkt ≢ (h.sockets i).rcv_nxt) ⊎ (text_len pkt ≡ 0)
      → ((t.sockets i).rcv_len ≡ (h.sockets i).rcv_len)
        × ((t.sockets i).rcv_nxt ≡ (h.sockets i).rcv_nxt)
        × ((t.sockets i).rcv_buf ≡ (h.sockets i).rcv_buf)

copied : (m from : Mem) (src n k : ℕ) → k < n → copy_bytes m 0 from src n k ≡ from (src + k)
unfolding copy_bytes
copied m from src n k h = ground arith

module _ (rounds : ℕ) (h : Host) (pkt : Mem) (len i : ℕ) (v : IsSegment h pkt len i)
    (cached : is_cached h ((h.sockets i).dst_ip) ≡ true) (no_rst : has (flags_of pkt) 0x04 ≡ false)
    (state : (h.sockets i).state ≢ 1) (no_fin : has (flags_of pkt) 0x01 ≡ false) where
  abbrev acked : Host
  acked = on_ack i (flags_of pkt) (ack_of pkt) (window_of pkt) h

  abbrev after : Host
  after = tcp_handle_packet (net_arp_resolve rounds) pkt len h

  known : Acknowledged h acked i
  known = on_ack-Acknowledged h i (flags_of pkt) (ack_of pkt) (window_of pkt)

  next_lem :
      seq_of pkt ≡ (h.sockets i).rcv_nxt
      → 0 < text_len pkt
      → after.sockets
        ≡ update acked.sockets i
            (with_text rounds (acked.sockets i) pkt (seq_of pkt) (text_at pkt) (text_len pkt))
  next_lem e some_text =
      ap (λ t. t.sockets) (on_segment_data rounds h pkt len i v no_rst state no_fin)
      ∙ on_data-sockets rounds acked pkt i (seq_of pkt) (text_at pkt) (text_len pkt)
          (known.cached ∙ cached) some_text (e ∙ sym known.rcv_nxt)

  ignored_lem :
      (ltb 0 (text_len pkt) && (seq_of pkt == (h.sockets i).rcv_nxt)) ≡ false
      → after.sockets ≡ acked.sockets
  ignored_lem e =
      ap (λ t. t.sockets) (on_segment_data rounds h pkt len i v no_rst state no_fin)
      ∙ ap (λ t. t.sockets)
          (on_data_ignored rounds acked pkt i (seq_of pkt) (text_at pkt) (text_len pkt)
            (ap (λ x. ltb 0 (text_len pkt) && (seq_of pkt == x)) known.rcv_nxt ∙ e))

  not_next :
      (seq_of pkt ≢ (h.sockets i).rcv_nxt) ⊎ (text_len pkt ≡ 0)
      → (ltb 0 (text_len pkt) && (seq_of pkt == (h.sockets i).rcv_nxt)) ≡ false
  not_next (inl other) = ground (arith, other)
  not_next (inr empty) = ground (arith, empty)

  next_sock :
      after.sockets
        ≡ update acked.sockets i
            (with_text rounds (acked.sockets i) pkt (seq_of pkt) (text_at pkt) (text_len pkt))
      → after.sockets i
        ≡ with_text rounds (acked.sockets i) pkt (seq_of pkt) (text_at pkt) (text_len pkt)
  next_sock e = ap (λ f. f i) e ∙ update_self acked.sockets i _

  same_others_lem : (j : ℕ) → i ≢ j → after.sockets j ≡ h.sockets j
  same_others_lem j n =
      elim (Bool-cases (ltb 0 (text_len pkt) && (seq_of pkt == (h.sockets i).rcv_nxt))) [
        | inl e ↦
            ap (λ f. f j) (next_lem (ground arith) (ground arith))
            ∙ update_ne acked.sockets i j _ n
            ∙ known.others j n
        | inr e ↦ ap (λ f. f j) (ignored_lem e) ∙ known.others j n
      ]

  same_state_lem : (after.sockets i).state ≡ (h.sockets i).state
  same_state_lem =
      elim (Bool-cases (ltb 0 (text_len pkt) && (seq_of pkt == (h.sockets i).rcv_nxt))) [
        | inl e ↦
            ap (λ s. s.state) (next_sock (next_lem (ground arith) (ground arith))) ∙ known.state
        | inr e ↦ ap (λ f. (f i).state) (ignored_lem e) ∙ known.state
      ]

  received : IsReceived h after pkt i
  received = record {
    others = same_others_lem;
    state = same_state_lem;
    in_order = λ e n.
        let now = next_sock (next_lem e n) in
        (
          ap (λ s. s.rcv_len) now,
          ap (λ s. s.rcv_nxt) now,
          λ k l.
              ap (λ s. s.rcv_buf k) now
              ∙ copied (acked.sockets i).rcv_buf pkt (text_at pkt) (min (text_len pkt) 1460) k l,
        );
    otherwise = λ e.
        let out : (ltb 0 (text_len pkt) && (seq_of pkt == (h.sockets i).rcv_nxt)) ≡ false =
          not_next e in
        let now = ap (λ f. f i) (ignored_lem out) in
        (
          ap (λ s. s.rcv_len) now ∙ known.rcv_len,
          ap (λ s. s.rcv_nxt) now ∙ known.rcv_nxt,
          ap (λ s. s.rcv_buf) now ∙ known.rcv_buf,
        );
  }

-- A segment with neither RST nor FIN, for a socket that is not connecting and whose peer's hardware
-- address is cached: if it has text and begins with the byte that is expected next, its text, of at
-- most 1460 bytes, takes the place of what the buffer held and the number of the next byte moves
-- on; if it has no text or begins with another byte, buffer, length and number stay. The state of the socket and all other sockets are unchanged.
pub tcp_handle_packet-IsReceived :
    (rounds : ℕ) (h : Host) (pkt : Mem) (len i : ℕ)
    → IsSegment h pkt len i
    → is_cached h ((h.sockets i).dst_ip) ≡ true
    → has (flags_of pkt) 0x04 ≡ false
    → (h.sockets i).state ≢ 1
    → has (flags_of pkt) 0x01 ≡ false
    → IsReceived h (tcp_handle_packet (net_arp_resolve rounds) pkt len h) pkt i
tcp_handle_packet-IsReceived rounds h pkt len i v cached no_rst state no_fin =
    received rounds h pkt len i v cached no_rst state no_fin
