-- ===== src/Net/SaneSockets.antt =====
-- The sockets under the calls of kernel/net/tcp.c, with their loops.
use noverix.Base.{
  ℕ, zero, suc, ◌+◌, ◌-◌, ◌*◌, ◌^◌, inl, inr, arith, ◌==◌, ◌!=◌, ltb, leb, ◌&&◌, ◌||◌, not, min,
  if◌then◌else◌, Bool, true, false, Option, none, some, u16, u32, sub32, Option-cases,
}
use noverix.Memory.{Mem}
use noverix.Net.Host.{Sock, Host, poll_round, no_bytes, copy_bytes}
use noverix.Net.Tcp.{set_sock, send_tcp_segment, first_sock}
use noverix.Net.Receive.{net_arp_resolve}
use noverix.Net.Sockets.{
  zero_sock, handle_frame, timeout_ticks, poll_loop, tcp_poll_until, set_used, connect_on,
  tcp_connect, send_loop, tcp_send, take_bytes, nothing_read, recv_loop, tcp_recv, close_loop,
  say_fin, tcp_close,
}
use noverix.Net.Sane.{
  IsSane, guarded, guarded_result, set_sock-IsSane, send_tcp_segment-IsSane,
  tcp_handle_packet-IsSane,
}
use noverix.Net.SaneReceive.{HandlesSane, poll_round-IsSane, net_arp_resolve-IsSane, events-cases}

frames-IsSane : (rounds : ℕ) → HandlesSane (handle_frame rounds)
frames-IsSane rounds =
    tcp_handle_packet-IsSane (net_arp_resolve rounds) (net_arp_resolve-IsSane rounds)

sends-IsSane :
    (rounds i flags : ℕ) (text : Mem) (len : ℕ) (h : Host)
    → IsSane h
    → IsSane (send_tcp_segment (net_arp_resolve rounds) i flags text len h).1
sends-IsSane rounds =
    send_tcp_segment-IsSane (net_arp_resolve rounds) (net_arp_resolve-IsSane rounds)

module _ (handle : Mem → ℕ → Host → Host) (keeps : HandlesSane handle) where
  poll_loop-IsSane :
      (n i target start limit : ℕ) (h : Host)
      → IsSane h
      → IsSane (poll_loop handle n i target start limit h).1
  unfolding poll_loop
  poll_loop-IsSane zero i target start limit h v = v
  poll_loop-IsSane (suc n) i target start limit h v =
      elim (Option-cases (poll_round handle start limit h)) [
        | inl e ↦ rw (poll_loop, e) v
        | inr (t, e) ↦
            let w : IsSane t = poll_round-IsSane handle keeps start limit h t v e in
            let gone : Bool = leb 6 ((t.sockets i).state) && (target != 0) in
            let more : Bool × Host = poll_loop handle n i target start limit t in
            rw (poll_loop, e)
              (guarded_result ((t.sockets i).state == target) (true, t)
                (if gone then (false, t) else more) w
                (guarded_result gone (false, t) more w
                  (poll_loop-IsSane n i target start limit t w)))
      ]

  send_loop-IsSane :
      (n i start limit : ℕ) (h : Host) → IsSane h → IsSane (send_loop handle n i start limit h).1
  unfolding send_loop
  send_loop-IsSane zero i start limit h v = v
  send_loop-IsSane (suc n) i start limit h v =
      elim (Option-cases (poll_round handle start limit h)) [
        | inl e ↦ rw (send_loop, e) v
        | inr (t, e) ↦
            let w : IsSane t = poll_round-IsSane handle keeps start limit h t v e in
            rw (send_loop, e)
              (guarded_result (leb ((t.sockets i).snd_nxt) ((t.sockets i).snd_una)) (true, t)
                (send_loop handle n i start limit t) w (send_loop-IsSane n i start limit t w))
      ]

  close_loop-IsSane : (n i start : ℕ) (h : Host) → IsSane h → IsSane (close_loop handle n i start h)
  unfolding close_loop
  close_loop-IsSane zero i start h v = v
  close_loop-IsSane (suc n) i start h v = elim (Option-cases (poll_round handle start 50 h)) [
    | inl e ↦ rw (close_loop, e) v
    | inr (t, e) ↦
        let w : IsSane t = poll_round-IsSane handle keeps start 50 h t v e in
        rw (close_loop, e)
          (guarded (leb 5 ((t.sockets i).state) || ((t.sockets i).state == 6)) t
            (close_loop handle n i start t) w (close_loop-IsSane n i start t w))
  ]

  one_frame :
      (frame : Option (Mem × ℕ)) (t : Host)
      → IsSane t
      → IsSane (elim frame as (λ x. Host) [ none ↦ t | some (pkt, len) ↦ handle pkt len t ])
  one_frame none t v = v
  one_frame (some (pkt, len)) t v = keeps pkt len t v

  take_bytes-IsSane : (i max_len : ℕ) (h : Host) → IsSane h → IsSane (take_bytes i max_len h).1
  unfolding take_bytes
  take_bytes-IsSane i max_len h v =
      let sock : Sock = h.sockets i in
      let copy : ℕ = min sock.rcv_len max_len in
      let rest : Mem =
        if ltb copy sock.rcv_len
        then copy_bytes sock.rcv_buf 0 sock.rcv_buf copy (sock.rcv_len - copy)
        else sock.rcv_buf in
      set_sock-IsSane h i (record sock { rcv_buf = rest; rcv_len = sock.rcv_len - copy }) v
        ((v i).0, omega (arith, (v i).1))

  recv_loop-IsSane :
      (n i max_len start limit : ℕ) (h : Host)
      → IsSane h
      → IsSane (recv_loop handle n i max_len start limit h).1
  unfolding recv_loop
  recv_loop-IsSane zero i max_len start limit h v = v
  recv_loop-IsSane (suc n) i max_len start limit h v = elim (events-cases h.events) [
    | inl q ↦ rw (recv_loop, q) v
    | inr (e, rest, q) ↦
        let t : Host = record h { ticks = e.now; events = rest } in
        let later : Host = elim e.frame [ none ↦ t | some (pkt, len) ↦ handle pkt len t ] in
        let w : IsSane later = one_frame e.frame t v in
        let more : (Mem × ℕ) × Host = recv_loop handle n i max_len start limit later in
        let waits : (Mem × ℕ) × Host =
          if leb 6 ((later.sockets i).state) then (nothing_read, later) else more in
        let takes : (Mem × ℕ) × Host =
          if ltb 0 ((h.sockets i).rcv_len) then take_bytes i max_len h else waits in
        rw (recv_loop, q)
          (guarded_result (not (ltb (sub32 e.now start) limit)) (nothing_read, h) takes v
            (guarded_result (ltb 0 ((h.sockets i).rcv_len)) (take_bytes i max_len h) waits
              (take_bytes-IsSane i max_len h v)
              (guarded_result (leb 6 ((later.sockets i).state)) (nothing_read, later) more w
                (recv_loop-IsSane n i max_len start limit later w))))
  ]

tcp_poll_until-IsSane :
    (rounds i target ms : ℕ) (h : Host) → IsSane h → IsSane (tcp_poll_until rounds i target ms h).1
unfolding tcp_poll_until
tcp_poll_until-IsSane rounds i target ms h v =
    let polled : Bool × Host =
      poll_loop (handle_frame rounds) rounds i target h.ticks (timeout_ticks ms) h in
    guarded_result (h.sockets i).used polled (false, h)
      (poll_loop-IsSane (handle_frame rounds) (frames-IsSane rounds) rounds i target h.ticks
        (timeout_ticks ms) h v)
      v

set_used-IsSane : (i : ℕ) (used : Bool) (h : Host) → IsSane h → IsSane (set_used i used h)
set_used-IsSane i used h v = set_sock-IsSane h i (record (h.sockets i) { used = used }) v (v i)

connect_on-IsSane :
    (rounds i ip port ms : ℕ) (h : Host) → IsSane h → IsSane (connect_on rounds i ip port ms h).1
unfolding connect_on
connect_on-IsSane rounds i ip port ms h v =
    let isn : ℕ = u32 (h.ticks * 2 ^ 4) in
    let sock : Sock = record zero_sock {
      used = true;
      dst_ip = ip;
      dst_port = port;
      src_port = h.next_ephemeral;
      isn = isn;
      snd_nxt = isn;
      snd_una = isn;
      state = 1;
    } in
    let opened : Host =
      set_sock i sock (record h { next_ephemeral = u16 (h.next_ephemeral + 1) }) in
    let a : IsSane opened =
      set_sock-IsSane (record h { next_ephemeral = u16 (h.next_ephemeral + 1) }) i sock v
        (inl (omega arith), omega arith) in
    let syn : Bool × Host = send_tcp_segment (net_arp_resolve rounds) i 0x02 no_bytes 0 opened in
    let b : IsSane syn.1 = sends-IsSane rounds i 0x02 no_bytes 0 opened a in
    let sock2 : Sock = record ((syn.1).sockets i) { snd_nxt = u32 (((syn.1).sockets i).isn + 1) } in
    let asked : Host = set_sock i sock2 syn.1 in
    let c : IsSane asked = set_sock-IsSane syn.1 i sock2 b (b i) in
    let answer : Bool × Host = tcp_poll_until rounds i 2 ms asked in
    let d : IsSane answer.1 = tcp_poll_until-IsSane rounds i 2 ms asked c in
    let refused : Option ℕ × Host = (none, set_used i false answer.1) in
    let answered : Option ℕ × Host = if answer.0 then (some i, answer.1) else refused in
    guarded_result syn.0 answered (none, set_used i false syn.1)
      (guarded_result answer.0 (some i, answer.1) refused d (set_used-IsSane i false answer.1 d))
      (set_used-IsSane i false syn.1 b)

pub tcp_connect-IsSane :
    (rounds ip port ms : ℕ) (h : Host) → IsSane h → IsSane (tcp_connect rounds ip port ms h).1
unfolding tcp_connect
tcp_connect-IsSane rounds ip port ms h v =
    elim (Option-cases (first_sock (λ s. not s.used) h 0 4)) [
      | inl e ↦ rw (tcp_connect, e) v
      | inr (i, e) ↦ rw (tcp_connect, e) (connect_on-IsSane rounds i ip port ms h v)
    ]

pub tcp_send-IsSane :
    (rounds i : ℕ) (text : Mem) (len ms : ℕ) (h : Host)
    → IsSane h
    → IsSane (tcp_send rounds i text len ms h).1
unfolding tcp_send
tcp_send-IsSane rounds i text len ms h v =
    let kept : ℕ = min len 1460 in
    let first : Sock = record (h.sockets i) { snd_nxt = (h.sockets i).snd_una } in
    let at_una : Host = set_sock i first h in
    let pushed : Bool × Host = send_tcp_segment (net_arp_resolve rounds) i 0x18 text kept at_una in
    let b : IsSane pushed.1 =
      sends-IsSane rounds i 0x18 text kept at_una (set_sock-IsSane h i first v (v i)) in
    let next : Sock = record ((pushed.1).sockets i) {
      snd_nxt = u32 (((pushed.1).sockets i).snd_una + kept);
    } in
    let waiting : Host = set_sock i next pushed.1 in
    let c : IsSane waiting = set_sock-IsSane pushed.1 i next b (b i) in
    let looped : Bool × Host =
      send_loop (handle_frame rounds) rounds i waiting.ticks (timeout_ticks ms) waiting in
    let d : IsSane looped.1 =
      send_loop-IsSane (handle_frame rounds) (frames-IsSane rounds) rounds i waiting.ticks
        (timeout_ticks ms) waiting c in
    let result : Bool × Host = if pushed.0 then looped else (false, pushed.1) in
    guarded_result (not (h.sockets i).used || ((h.sockets i).state != 2)) (false, h) result v
      (guarded_result pushed.0 looped (false, pushed.1) d b)

pub tcp_recv-IsSane :
    (rounds i max_len ms : ℕ) (h : Host) → IsSane h → IsSane (tcp_recv rounds i max_len ms h).1
unfolding tcp_recv
tcp_recv-IsSane rounds i max_len ms h v =
    let r : (Mem × ℕ) × Host =
      recv_loop (handle_frame rounds) rounds i max_len h.ticks (timeout_ticks ms) h in
    guarded_result (h.sockets i).used (some r.0, r.1) (none, h)
      (recv_loop-IsSane (handle_frame rounds) (frames-IsSane rounds) rounds i max_len h.ticks
        (timeout_ticks ms) h v)
      v

say_fin-IsSane : (rounds i : ℕ) (h : Host) → IsSane h → IsSane (say_fin rounds i h)
say_fin-IsSane rounds i h v =
    let t : Host = (send_tcp_segment (net_arp_resolve rounds) i 0x11 no_bytes 0 h).1 in
    let a : IsSane t = sends-IsSane rounds i 0x11 no_bytes 0 h v in
    let sock : Sock = record (t.sockets i) {
      snd_nxt = u32 ((t.sockets i).snd_nxt + 1);
      state = 3;
    } in
    let waiting : Host = set_sock i sock t in
    close_loop-IsSane (handle_frame rounds) (frames-IsSane rounds) rounds i waiting.ticks waiting
      (set_sock-IsSane t i sock a (inl (omega arith), (a i).1))

pub tcp_close-IsSane : (rounds i : ℕ) (h : Host) → IsSane h → IsSane (tcp_close rounds i h)
unfolding tcp_close
tcp_close-IsSane rounds i h v =
    let said : Host = if (h.sockets i).state == 2 then say_fin rounds i h else h in
    let w : IsSane said =
      guarded ((h.sockets i).state == 2) (say_fin rounds i h) h (say_fin-IsSane rounds i h v) v in
    guarded (h.sockets i).used (set_used i false said) h (set_used-IsSane i false said w) v
