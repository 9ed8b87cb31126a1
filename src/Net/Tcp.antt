-- ===== src/Net/Tcp.antt =====
-- kernel/net/tcp.c: segments out and segments in. `resolve` is `net_arp_resolve` of kernel/net/net.c,
-- which receives packets itself.
use noverix.Base.{
  ℕ, zero, suc, ◌+◌, ◌-◌, ◌*◌, ◌/◌, ◌%◌, ◌^◌, ◌==◌, ◌!=◌, ltb, ◌&&◌, ◌||◌, min, if◌then◌else◌, Bool,
  false, Option, none, some, update, u32, bit_and,
}
use noverix.Memory.{Mem, load16, load32, store16, store32}
use noverix.Net.{net_htons, net_htonl, sum_words, fold_sum, complement}
use noverix.Net.Host.{Sock, Host, ip_tcp, net_host_ip, copy_bytes, no_bytes, rtl8139_send}
use noverix.Net.Arp.{broadcast}
use noverix.Net.Icmp.{or_zero, ip_headers, ip_hlen}

abbrev pub tcp_closed : ℕ
tcp_closed = 0

abbrev pub tcp_syn_sent : ℕ
tcp_syn_sent = 1

abbrev pub tcp_established : ℕ
tcp_established = 2

abbrev pub tcp_fin_wait_1 : ℕ
tcp_fin_wait_1 = 3

abbrev pub tcp_fin_wait_2 : ℕ
tcp_fin_wait_2 = 4

abbrev pub tcp_time_wait : ℕ
tcp_time_wait = 5

abbrev pub tcp_close_wait : ℕ
tcp_close_wait = 6

abbrev pub flag_fin : ℕ
flag_fin = 0x01

abbrev pub flag_syn : ℕ
flag_syn = 0x02

abbrev pub flag_rst : ℕ
flag_rst = 0x04

abbrev pub flag_psh : ℕ
flag_psh = 0x08

abbrev pub flag_ack : ℕ
flag_ack = 0x10

abbrev pub tcp_max_socks : ℕ
tcp_max_socks = 4

-- `sizeof(sock->rcv_buf)`
abbrev pub rcv_size : ℕ
rcv_size = 1460

-- The sum over the pseudo header and then over the segment, in its order. The fold ends as that of
-- `net_checksum` does.
unfoldable pub tcp_checksum : (src_ip dst_ip : ℕ) → Mem → (tcp tcp_len : ℕ) → ℕ
tcp_checksum src_ip dst_ip m tcp tcp_len =
    let addresses = store32 (store32 no_bytes 0 src_ip) 4 dst_ip in
    let pseudo = store16 (update (update addresses 8 0) 9 6) 10 (net_htons tcp_len) in
    let words = sum_words m tcp 0 (tcp_len / 2) (sum_words pseudo 0 0 6 0) in
    let sum = if tcp_len % 2 == 0 then words else u32 (words + m (tcp + (tcp_len - 1))) in
    or_zero (complement (fold_sum 3 sum))

-- `for (i = …; i < TCP_MAX_SOCKS; i++)`: the first socket that `test` holds of.
unfoldable pub first_sock : (Sock → Bool) → Host → (i n : ℕ) → Option ℕ
first_sock test h i zero = none
first_sock test h i (suc n) =
    let rest = first_sock test h (i + 1) n in if test (h.sockets i) then some i else rest

unfoldable pub find_sock_by_port : Host → (dst_port : ℕ) → Option ℕ
find_sock_by_port h dst_port =
    first_sock (λ s. s.used && (s.src_port == dst_port)) h 0 tcp_max_socks

-- The frame of `send_tcp_segment` but for the hardware address; `text` holds the data.
unfoldable pub segment : Host → Sock → (flags : ℕ) → (text : Mem) → (data_len : ℕ) → Mem
segment h sock flags text data_len =
    let tcp_len = 20 + data_len in
    let p0 = ip_headers h broadcast (20 + tcp_len) 2 ip_tcp sock.dst_ip in
    let p1 = store16 (store16 p0 34 (net_htons sock.src_port)) 36 (net_htons sock.dst_port) in
    let p2 = store32 (store32 p1 38 (net_htonl sock.snd_nxt)) 42 (net_htonl sock.rcv_nxt) in
    let p3 = update (update p2 46 0x50) 47 flags in
    let p4 = store16 (store16 p3 48 (net_htons 1460)) 52 0 in
    let p5 = store16 (copy_bytes p4 54 text 0 data_len) 50 0 in
    store16 p5 50 (tcp_checksum (net_htonl net_host_ip) (net_htonl sock.dst_ip) p5 34 tcp_len)

abbrev pub set_sock : ℕ → Sock → Host → Host
set_sock i sock h = record h { sockets = update h.sockets i sock }

abbrev pub has : (flags flag : ℕ) → Bool
has flags flag = bit_and flags flag != 0

abbrev pub on_ack : (i flags ack window : ℕ) → Host → Host
on_ack i flags ack window h =
    if has flags flag_ack
    then set_sock i (record (h.sockets i) { snd_una = ack; peer_window = window }) h
    else h

module _ (resolve : (ip : ℕ) → Host → Option Mem × Host) where
  -- True for 0, false for -1.
  unfoldable pub send_tcp_segment :
      (i flags : ℕ) → (text : Mem) → (data_len : ℕ) → Host → Bool × Host
  send_tcp_segment i flags text data_len h =
      let pkt = segment h (h.sockets i) flags text data_len in
      let r = resolve ((h.sockets i).dst_ip) h in
      elim r.0 [
        | none ↦ (false, r.1)
        | some mac ↦ rtl8139_send (copy_bytes pkt 0 mac 0 6) (54 + data_len) r.1
      ]

  abbrev pub send_ack : (i : ℕ) → Host → Host
  send_ack i h = (send_tcp_segment i flag_ack no_bytes 0 h).1

  -- A segment in the state TCP_SYN_SENT.
  unfoldable pub on_syn_sent : (i flags seq ack window : ℕ) → Host → Host
  on_syn_sent i flags seq ack window h =
      let sock = h.sockets i in
      if has flags flag_syn && has flags flag_ack
      then (if ack != sock.snd_nxt
          then h
          else send_ack i (
              set_sock i
                (record sock {
                  rcv_nxt = u32 (seq + 1);
                  snd_una = ack;
                  peer_window = window;
                  state = tcp_established;
                })
                h))
      else h

  -- What follows the first acknowledgement of a FIN.
  abbrev pub after_fin : (i : ℕ) → Host → Host
  after_fin i h =
      if (h.sockets i).state == tcp_fin_wait_2
      then send_ack i (set_sock i (record (h.sockets i) { state = tcp_time_wait }) h)
      else set_sock i (record (h.sockets i) { state = tcp_close_wait }) h

  unfoldable pub on_fin : (i seq : ℕ) → Host → Host
  on_fin i seq h =
      after_fin i (send_ack i (set_sock i (record (h.sockets i) { rcv_nxt = u32 (seq + 1) }) h))

  unfoldable pub on_data : Mem → (i seq data_off data_len : ℕ) → Host → Host
  on_data pkt i seq data_off data_len h =
      let sock = h.sockets i in
      let kept = min data_len rcv_size in
      if ltb 0 data_len && (seq == sock.rcv_nxt)
      then send_ack i (
          set_sock i
            (record sock {
              rcv_buf = copy_bytes sock.rcv_buf 0 pkt data_off kept;
              rcv_len = kept;
              rcv_nxt = u32 (seq + kept);
            })
            h)
      else h

  -- A segment whose lengths are right, for the socket `i`.
  unfoldable pub on_segment : Mem → (i tcp data_off data_len : ℕ) → Host → Host
  on_segment pkt i tcp data_off data_len h =
      let seq = net_htonl (load32 pkt (tcp + 4)) in
      let ack = net_htonl (load32 pkt (tcp + 8)) in
      let flags = pkt (tcp + 13) in
      let window = net_htons (load16 pkt (tcp + 14)) in
      let acked = on_ack i flags ack window h in
      if has flags flag_rst
      then set_sock i (record (h.sockets i) { state = tcp_closed }) h
      else if (h.sockets i).state == tcp_syn_sent
      then on_syn_sent i flags seq ack window h
      else if has flags flag_fin
      then on_fin i seq acked
      else on_data pkt i seq data_off data_len acked

  unfoldable pub tcp_handle_packet : Mem → (len : ℕ) → Host → Host
  tcp_handle_packet pkt len h =
      let tcp_off = 14 + ip_hlen pkt in
      let ip_total = net_htons (load16 pkt 16) in
      let tcp_hlen = pkt (tcp_off + 12) / 2 ^ 4 % 16 * 4 in
      if ltb (ip_hlen pkt) 20
      then h
      else if ltb len (tcp_off + 20)
      then h
      else if ltb len (14 + ip_total)
      then h
      else elim (find_sock_by_port h (net_htons (load16 pkt (tcp_off + 2)))) [
        | none ↦ h
        | some i ↦
            if ltb tcp_hlen 20 || ltb (14 + ip_total) (tcp_off + tcp_hlen)
            then h
            else on_segment pkt i tcp_off (tcp_off + tcp_hlen) (14 + ip_total - tcp_off - tcp_hlen)
                h
      ]
