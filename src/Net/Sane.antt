-- ===== src/Net/Sane.antt =====
-- What every packet and every call leaves true of the sockets of kernel/net/tcp.c.
use noverix.Base.{
  ℕ, ◌+◌, ◌-◌, ◌*◌, ◌/◌, ◌%◌, ◌^◌, ◌≤◌, ◌≡◌, ◌⊎◌, inl, inr, refl, arith, ◌==◌, ◌!=◌, ltb, ◌&&◌,
  ◌||◌, if◌then◌else◌, Bool, true, false, Option, u32, Bool-cases, Option-cases,
}
use noverix.Memory.{Mem, load16, load32}
use noverix.Net.{net_htons, net_htonl}
use noverix.Net.Icmp.{ip_hlen}
use noverix.Net.Host.{Sock, Host, rtl8139_send}
use noverix.Net.Tcp.{
  set_sock, send_tcp_segment, send_ack, has, on_syn_sent, on_ack, after_fin, on_fin, on_data,
  on_segment, tcp_handle_packet, find_sock_by_port,
}

-- The states that a socket gets into, TCP_CLOSED, TCP_SYN_SENT, TCP_ESTABLISHED, TCP_FIN_WAIT_1 and
-- TCP_CLOSE_WAIT, and the bytes that its buffer has room for.
abbrev pub IsSaneSock : Sock → Type 0
IsSaneSock s = ((s.state ≤ 3) ⊎ (s.state ≡ 6)) × (s.rcv_len ≤ 1460)

abbrev pub IsSane : Host → Type 0
IsSane h = (i : ℕ) → IsSaneSock (h.sockets i)

pub guarded : (b : Bool) (h t : Host) → IsSane h → IsSane t → IsSane (if b then h else t)
guarded true h t v w = v
guarded false h t v w = w

pub guarded_result :
    {A : Type 0} (b : Bool) (x y : A × Host)
    → IsSane x.1
    → IsSane y.1
    → IsSane (if b then x else y).1
guarded_result true x y v w = v
guarded_result false x y v w = w

pub set_sock-IsSane :
    (h : Host) (i : ℕ) (s : Sock) → IsSane h → IsSaneSock s → IsSane (set_sock i s h)
set_sock-IsSane h i s v x j = elim (Bool-cases (i == j)) [ inl e ↦ rw e x | inr e ↦ rw e (v j) ]

pub rtl8139_send-IsSane :
    (pkt : Mem) (len : ℕ) (h : Host) → IsSane h → IsSane (rtl8139_send pkt len h).1
unfolding rtl8139_send
rtl8139_send-IsSane pkt len h v = elim (Bool-cases (ltb len 14 || ltb 1514 len)) [
  | inl e ↦ rw e v
  | inr e ↦ rw e v
]

module _ (resolve : (ip : ℕ) → Host → Option Mem × Host)
    (keeps : (ip : ℕ) (h : Host) → IsSane h → IsSane (resolve ip h).1) where
  pub send_tcp_segment-IsSane :
      (i flags : ℕ) (text : Mem) (len : ℕ) (h : Host)
      → IsSane h
      → IsSane (send_tcp_segment resolve i flags text len h).1
  unfolding send_tcp_segment
  send_tcp_segment-IsSane i flags text len h v =
      let after : IsSane (resolve ((h.sockets i).dst_ip) h).1 = keeps ((h.sockets i).dst_ip) h v in
      elim (Option-cases (resolve ((h.sockets i).dst_ip) h).0) [
        | inl e ↦ rw (send_tcp_segment, e) after
        | inr (mac, e) ↦
            rw (send_tcp_segment, e)
              (rtl8139_send-IsSane _ (54 + len) (resolve ((h.sockets i).dst_ip) h).1 after)
      ]

  send_ack-IsSane : (i : ℕ) (h : Host) → IsSane h → IsSane (send_ack resolve i h)
  send_ack-IsSane i h v = send_tcp_segment-IsSane i 0x10 _ 0 h v

  on_ack-IsSane :
      (i flags ack window : ℕ) (h : Host) → IsSane h → IsSane (on_ack i flags ack window h)
  on_ack-IsSane i flags ack window h v = elim (Bool-cases (has flags 0x10)) [
    | inl e ↦
        rw e (
          set_sock-IsSane h i (record (h.sockets i) { snd_una = ack; peer_window = window }) v
            (v i))
    | inr e ↦ rw e v
  ]

  on_syn_sent-IsSane :
      (i flags seq ack window : ℕ) (h : Host)
      → IsSane h
      → IsSane (on_syn_sent resolve i flags seq ack window h)
  unfolding on_syn_sent
  on_syn_sent-IsSane i flags seq ack window h v =
      elim (Bool-cases (has flags 0x02 && has flags 0x10)) [
        | inr e ↦ rw e v
        | inl e ↦ elim (Bool-cases (ack != (h.sockets i).snd_nxt)) [
          | inl f ↦ rw (e, f) v
          | inr f ↦
              rw (e, f) (send_ack-IsSane i _ (set_sock-IsSane h i _ v (inl (omega arith), (v i).1)))
        ]
      ]

  after_fin-IsSane : (i : ℕ) (h : Host) → IsSane h → IsSane (after_fin resolve i h)
  after_fin-IsSane i h v = elim (Bool-cases ((h.sockets i).state == 4)) [
    | inl e ↦ absurd (ground (arith, e, v i))
    | inr e ↦ rw e (set_sock-IsSane h i _ v (inr refl, (v i).1))
  ]

  on_fin-IsSane : (i seq : ℕ) (h : Host) → IsSane h → IsSane (on_fin resolve i seq h)
  unfolding on_fin
  on_fin-IsSane i seq h v =
      let next : Host = set_sock i (record (h.sockets i) { rcv_nxt = u32 (seq + 1) }) h in
      after_fin-IsSane i (send_ack resolve i next) (
        send_ack-IsSane i next
          (set_sock-IsSane h i (record (h.sockets i) { rcv_nxt = u32 (seq + 1) }) v (v i)))

  on_data-IsSane :
      (pkt : Mem) (i seq data_off data_len : ℕ) (h : Host)
      → IsSane h
      → IsSane (on_data resolve pkt i seq data_off data_len h)
  unfolding on_data
  on_data-IsSane pkt i seq data_off data_len h v =
      elim (Bool-cases (ltb 0 data_len && (seq == (h.sockets i).rcv_nxt))) [
        | inr e ↦ rw e v
        | inl e ↦ rw e (send_ack-IsSane i _ (set_sock-IsSane h i _ v ((v i).0, omega arith)))
      ]

  on_segment-IsSane :
      (pkt : Mem) (i tcp data_off data_len : ℕ) (h : Host)
      → IsSane h
      → IsSane (on_segment resolve pkt i tcp data_off data_len h)
  unfolding on_segment
  on_segment-IsSane pkt i tcp data_off data_len h v =
      let seq : ℕ = net_htonl (load32 pkt (tcp + 4)) in
      let ack : ℕ = net_htonl (load32 pkt (tcp + 8)) in
      let flags : ℕ = pkt (tcp + 13) in
      let window : ℕ = net_htons (load16 pkt (tcp + 14)) in
      let acked : IsSane (on_ack i flags ack window h) = on_ack-IsSane i flags ack window h v in
      elim (Bool-cases (has flags 0x04)) [
        | inl r ↦ rw r (
            set_sock-IsSane h i (record (h.sockets i) { state = 0 }) v (inl (omega arith), (v i).1))
        | inr r ↦ elim (Bool-cases ((h.sockets i).state == 1)) [
          | inl s ↦ rw (r, s) (on_syn_sent-IsSane i flags seq ack window h v)
          | inr s ↦ elim (Bool-cases (has flags 0x01)) [
            | inl f ↦ rw (r, s, f) (on_fin-IsSane i seq (on_ack i flags ack window h) acked)
            | inr f ↦
                rw (r, s, f)
                  (on_data-IsSane pkt i seq data_off data_len (on_ack i flags ack window h) acked)
          ]
        ]
      ]

  -- Whatever a packet holds, the sockets are sane after `tcp_handle_packet` if they were before.
  pub tcp_handle_packet-IsSane :
      (pkt : Mem) (len : ℕ) (h : Host) → IsSane h → IsSane (tcp_handle_packet resolve pkt len h)
  unfolding tcp_handle_packet
  tcp_handle_packet-IsSane pkt len h v =
      let tcp_off : ℕ = 14 + ip_hlen pkt in
      let ip_total : ℕ = net_htons (load16 pkt 16) in
      let tcp_hlen : ℕ = pkt (tcp_off + 12) / 2 ^ 4 % 16 * 4 in
      guarded (ltb (ip_hlen pkt) 20) h _ v (
        guarded (ltb len (tcp_off + 20)) h _ v (
          guarded (ltb len (14 + ip_total)) h _ v
            (elim (Option-cases (find_sock_by_port h (net_htons (load16 pkt (tcp_off + 2))))) [
              | inl e ↦ rw e v
              | inr (i, e) ↦ rw e (
                  guarded (ltb tcp_hlen 20 || ltb (14 + ip_total) (tcp_off + tcp_hlen)) h _ v (
                    on_segment-IsSane pkt i tcp_off (tcp_off + tcp_hlen)
                      (14 + ip_total - tcp_off - tcp_hlen) h v))
            ])))
