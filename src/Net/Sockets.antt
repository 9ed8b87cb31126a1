-- ===== src/Net/Sockets.antt =====
-- The calls of kernel/net/tcp.c on sockets, with the loops in them. The index of a socket is below
-- TCP_MAX_SOCKS; the C code does not check it.
use noverix.Base.{
  ℕ, zero, suc, ◌+◌, ◌-◌, ◌*◌, ◌/◌, ◌^◌, ◌==◌, ◌!=◌, ltb, leb, ◌&&◌, ◌||◌, not, min, if◌then◌else◌,
  Bool, true, false, Option, none, some, u16, u32, sub32,
}
use noverix.Memory.{Mem}
use noverix.Net.Host.{Sock, Host, copy_bytes, no_bytes, next_event, poll_round}
use noverix.Net.Tcp.{
  tcp_closed, tcp_syn_sent, tcp_established, tcp_fin_wait_1, tcp_time_wait, tcp_close_wait,
  flag_syn, tcp_max_socks, first_sock, set_sock, send_tcp_segment, tcp_handle_packet,
}
use noverix.Net.Receive.{net_arp_resolve}

-- A socket after `lib_memset(sock, 0, sizeof(*sock))`.
abbrev pub zero_sock : Sock
zero_sock = record {
  used = false;
  state = 0;
  dst_ip = 0;
  dst_port = 0;
  src_port = 0;
  snd_nxt = 0;
  rcv_nxt = 0;
  snd_una = 0;
  peer_window = 0;
  rcv_buf = no_bytes;
  rcv_len = 0;
  isn = 0;
}

unfoldable pub tcp_init : Host → Host
tcp_init h = record h { sockets = λ i. zero_sock }

-- What the loops do with a frame: they hand it to `tcp_handle_packet` as it is.
abbrev pub handle_frame : (rounds : ℕ) → Mem → (len : ℕ) → Host → Host
handle_frame rounds = tcp_handle_packet (net_arp_resolve rounds)

abbrev pub timeout_ticks : (timeout_ms : ℕ) → ℕ
timeout_ticks timeout_ms = u32 (timeout_ms + 9) / 10

-- The loop of `tcp_poll_until`: true for 0, false for -1.
unfoldable pub poll_loop :
    (handle : Mem → ℕ → Host → Host) → (n i target_state start limit : ℕ) → Host → Bool × Host
poll_loop handle zero i target_state start limit h = (false, h)
poll_loop handle (suc n) i target_state start limit h = elim (poll_round handle start limit h) [
  | none ↦ (false, h)
  | some t ↦
      if (t.sockets i).state == target_state
      then (true, t)
      else if leb tcp_close_wait ((t.sockets i).state) && (target_state != tcp_closed)
      then (false, t)
      else poll_loop handle n i target_state start limit t
]

unfoldable pub tcp_poll_until : (rounds sock_idx target_state timeout_ms : ℕ) → Host → Bool × Host
tcp_poll_until rounds i target_state timeout_ms h =
    if (h.sockets i).used
    then poll_loop (handle_frame rounds) rounds i target_state h.ticks (timeout_ticks timeout_ms) h
    else (false, h)

abbrev pub set_used : (i : ℕ) → Bool → Host → Host
set_used i used h = set_sock i (record (h.sockets i) { used = used }) h

-- `tcp_connect` with the socket that it found.
unfoldable pub connect_on : (rounds i ip port timeout_ms : ℕ) → Host → Option ℕ × Host
connect_on rounds i ip port timeout_ms h =
    let isn = u32 (h.ticks * 2 ^ 4) in
    let sock = record zero_sock {
      used = true;
      dst_ip = ip;
      dst_port = port;
      src_port = h.next_ephemeral;
      isn = isn;
      snd_nxt = isn;
      snd_una = isn;
      state = tcp_syn_sent;
    } in
    let opened = set_sock i sock (record h { next_ephemeral = u16 (h.next_ephemeral + 1) }) in
    let syn = send_tcp_segment (net_arp_resolve rounds) i flag_syn no_bytes 0 opened in
    let asked =
      set_sock i (record ((syn.1).sockets i) { snd_nxt = u32 (((syn.1).sockets i).isn + 1) })
        syn.1 in
    let answer = tcp_poll_until rounds i tcp_established timeout_ms asked in
    if syn.0
    then (if answer.0 then (some i, answer.1) else (none, set_used i false answer.1))
    else (none, set_used i false syn.1)

-- The index of the socket, none for -1.
unfoldable pub tcp_connect : (rounds ip port timeout_ms : ℕ) → Host → Option ℕ × Host
tcp_connect rounds ip port timeout_ms h = elim (first_sock (λ s. not s.used) h 0 tcp_max_socks) [
  | none ↦ (none, h)
  | some i ↦ connect_on rounds i ip port timeout_ms h
]

-- The loop of `tcp_send`.
unfoldable pub send_loop :
    (handle : Mem → ℕ → Host → Host) → (n i start limit : ℕ) → Host → Bool × Host
send_loop handle zero i start limit h = (false, h)
send_loop handle (suc n) i start limit h = elim (poll_round handle start limit h) [
  | none ↦ (false, h)
  | some t ↦
      if leb ((t.sockets i).snd_nxt) ((t.sockets i).snd_una)
      then (true, t)
      else send_loop handle n i start limit t
]

unfoldable pub tcp_send :
    (rounds sock_idx : ℕ) → (text : Mem) → (len timeout_ms : ℕ) → Host → Bool × Host
tcp_send rounds i text len timeout_ms h =
    let kept = min len 1460 in
    let at_una = set_sock i (record (h.sockets i) { snd_nxt = (h.sockets i).snd_una }) h in
    let pushed = send_tcp_segment (net_arp_resolve rounds) i 0x18 text kept at_una in
    let waiting =
      set_sock i
        (record ((pushed.1).sockets i) { snd_nxt = u32 (((pushed.1).sockets i).snd_una + kept) })
        pushed.1 in
    if not (h.sockets i).used || ((h.sockets i).state != tcp_established)
    then (false, h)
    else if pushed.0
    then send_loop (handle_frame rounds) rounds i waiting.ticks (timeout_ticks timeout_ms) waiting
    else (false, pushed.1)

-- The bytes that `tcp_recv` takes, and the others moved to the front.
unfoldable pub take_bytes : (i max_len : ℕ) → Host → (Mem × ℕ) × Host
take_bytes i max_len h =
    let sock = h.sockets i in
    let copy = min sock.rcv_len max_len in
    let rest =
      if ltb copy sock.rcv_len
      then copy_bytes sock.rcv_buf 0 sock.rcv_buf copy (sock.rcv_len - copy)
      else sock.rcv_buf in
    (
      (copy_bytes no_bytes 0 sock.rcv_buf 0 copy, copy),
      set_sock i (record sock { rcv_buf = rest; rcv_len = sock.rcv_len - copy }) h,
    )

-- What is put into `buf`, and its length, which the C function returns.
abbrev pub nothing_read : Mem × ℕ
nothing_read = (no_bytes, 0)

unfoldable pub recv_loop :
    (handle : Mem → ℕ → Host → Host) → (n i max_len start limit : ℕ) → Host → (Mem × ℕ) × Host
recv_loop handle zero i max_len start limit h = (nothing_read, h)
recv_loop handle (suc n) i max_len start limit h = elim (next_event h) [
  | none ↦ (nothing_read, h)
  | some (e, t) ↦
      let later : Host = elim e.frame [ none ↦ t | some (pkt, len) ↦ handle pkt len t ] in
      if not (ltb (sub32 e.now start) limit)
      then (nothing_read, h)
      else if ltb 0 ((h.sockets i).rcv_len)
      then take_bytes i max_len h
      else if leb tcp_close_wait ((later.sockets i).state)
      then (nothing_read, later)
      else recv_loop handle n i max_len start limit later
]

-- None for -1. A frame that comes while data is waiting is left with the card.
unfoldable pub tcp_recv : (rounds sock_idx max_len timeout_ms : ℕ) → Host → Option (Mem × ℕ) × Host
tcp_recv rounds i max_len timeout_ms h =
    let r = recv_loop (handle_frame rounds) rounds i max_len h.ticks (timeout_ticks timeout_ms) h in
    if (h.sockets i).used then (some r.0, r.1) else (none, h)

unfoldable pub close_loop : (handle : Mem → ℕ → Host → Host) → (n i start : ℕ) → Host → Host
close_loop handle zero i start h = h
close_loop handle (suc n) i start h = elim (poll_round handle start 50 h) [
  | none ↦ h
  | some t ↦
      if leb tcp_time_wait ((t.sockets i).state) || ((t.sockets i).state == tcp_close_wait)
      then t
      else close_loop handle n i start t
]

-- The end of an established connection: a FIN, and up to half a second for its answer.
abbrev pub say_fin : (rounds i : ℕ) → Host → Host
say_fin rounds i h =
    let t = (send_tcp_segment (net_arp_resolve rounds) i 0x11 no_bytes 0 h).1 in
    let sock = t.sockets i in
    let waiting =
      set_sock i (record sock { snd_nxt = u32 (sock.snd_nxt + 1); state = tcp_fin_wait_1 }) t in
    close_loop (handle_frame rounds) rounds i waiting.ticks waiting

unfoldable pub tcp_close : (rounds sock_idx : ℕ) → Host → Host
tcp_close rounds i h =
    if (h.sockets i).used
    then set_used i false (if (h.sockets i).state == tcp_established then say_fin rounds i h else h)
    else h
