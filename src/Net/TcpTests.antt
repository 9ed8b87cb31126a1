-- ===== src/Net/TcpTests.antt =====
-- A host that talks to another one, for kernel/net/net.c and kernel/net/tcp.c.
use noverix.Base.{ℕ, ◌+◌, ◌≡◌, refl, arith, ap, ◌∙◌, true, false, some, [], ◌==◌, if◌then◌else◌}
use noverix.Memory.{store32, load32, store16, Mem, load16}
use noverix.Net.{net_htonl, net_htons}
use noverix.Net.Host.{copy_bytes, Sock, Host, no_bytes, net_host_ip}
use noverix.Net.Tcp.{first_sock, segment, tcp_handle_packet, has, find_sock_by_port}
use noverix.Net.Receive.{net_arp_resolve}
use noverix.Net.Sockets.{zero_sock, tcp_init, tcp_connect, tcp_close}
use noverix.Net.Sane.{IsSane}
use noverix.Net.Runs.{Reachable, Reachable-IsSane}
use noverix.Net.Segments.{IsSegment, tcp_at, text_len, seq_of, flags_of, tcp_hlen_of, ip_total_of}
use noverix.Net.Received.{IsReceived, tcp_handle_packet-IsReceived}
use noverix.Net.Handshake.{IsHandshake, tcp_handle_packet-IsHandshake}
use noverix.Net.Icmp.{ip_headers, ip_hlen}

abbrev peer_ip : ℕ
peer_ip = 0x0A000203

abbrev quiet : Host
quiet = record {
  own_mac = no_bytes;
  arp_cache_ip = peer_ip;
  arp_cache_mac = no_bytes;
  arp_cache_valid = true;
  ping_reply_id = 0;
  ping_reply_seq = 0;
  ping_reply_received = false;
  sockets = λ i. zero_sock;
  next_ephemeral = 40000;
  ticks = 7;
  events = [];
  sends = true;
  sent = [];
}

abbrev opened : Sock
opened = record zero_sock {
  used = true;
  state = 2;
  dst_ip = peer_ip;
  dst_port = 80;
  src_port = 40000;
  snd_nxt = 501;
  snd_una = 501;
  rcv_nxt = 1000;
}

abbrev connected_host : Host
connected_host = record quiet { sockets = λ i. if i == 0 then opened else zero_sock }

abbrev connecting_host : Host
connecting_host = record quiet {
  sockets = λ i. if i == 0 then record opened { state = 1; rcv_nxt = 0 } else zero_sock;
}

-- The other end.
abbrev peer : Sock
peer = record zero_sock {
  dst_ip = net_host_ip;
  dst_port = 40000;
  src_port = 80;
  snd_nxt = 1000;
  rcv_nxt = 501;
}

abbrev text : Mem
text k = 65 + k

abbrev data_frame : Mem
data_frame = segment quiet peer 0x18 text 4

abbrev syn_ack_frame : Mem
syn_ack_frame = segment quiet peer 0x12 no_bytes 0

data_lengths :
    (ip_hlen data_frame ≡ 20) × (tcp_hlen_of data_frame ≡ 20) × (ip_total_of data_frame ≡ 44)
unfolding segment store16 copy_bytes store32 ip_headers net_htons load16
data_lengths = (refl, refl, refl)

data_dst : net_htons (load16 data_frame (tcp_at data_frame + 2)) ≡ 40000
unfolding net_htons load16 segment store16 copy_bytes store32 ip_headers
data_dst = refl

data_port : find_sock_by_port connected_host 40000 ≡ some 0
unfolding find_sock_by_port first_sock
data_port = refl

data_frame-IsSegment : IsSegment connected_host data_frame 58 0
data_frame-IsSegment = record {
  ip_header = omega (arith, data_lengths.0);
  long = omega (arith, data_lengths.0);
  whole = omega (arith, data_lengths.2);
  port = ap (find_sock_by_port connected_host) data_dst ∙ data_port;
  tcp_header = omega (arith, data_lengths.1);
  inside = omega (arith, data_lengths.0, data_lengths.1, data_lengths.2);
}

data_flags : (has (flags_of data_frame) 0x04 ≡ false) × (has (flags_of data_frame) 0x01 ≡ false)
unfolding segment store16 copy_bytes store32 ip_headers
data_flags = (refl, refl)

tcp_handle_packet-IsReceived_example :
    IsReceived connected_host
      (tcp_handle_packet (net_arp_resolve 3) data_frame 58 connected_host)
      data_frame
      0
tcp_handle_packet-IsReceived_example =
    tcp_handle_packet-IsReceived 3 connected_host data_frame 58 0 data_frame-IsSegment refl
      data_flags.0 (λ e. absurd (omega (arith, e))) data_flags.1

-- The frame is the one that the socket expects next.
data_in_order : (seq_of data_frame ≡ 1000) × (text_len data_frame ≡ 4)
unfolding net_htonl load32 segment store16 copy_bytes store32 ip_headers net_htons load16
data_in_order = (refl, refl)

syn_ack_lengths :
    (ip_hlen syn_ack_frame ≡ 20)
    × (tcp_hlen_of syn_ack_frame ≡ 20)
    × (ip_total_of syn_ack_frame ≡ 40)
unfolding segment store16 copy_bytes store32 ip_headers net_htons load16
syn_ack_lengths = (refl, refl, refl)

syn_ack_dst : net_htons (load16 syn_ack_frame (tcp_at syn_ack_frame + 2)) ≡ 40000
unfolding net_htons load16 segment store16 copy_bytes store32 ip_headers
syn_ack_dst = refl

syn_ack_port : find_sock_by_port connecting_host 40000 ≡ some 0
unfolding find_sock_by_port first_sock
syn_ack_port = refl

syn_ack_frame-IsSegment : IsSegment connecting_host syn_ack_frame 54 0
syn_ack_frame-IsSegment = record {
  ip_header = omega (arith, syn_ack_lengths.0);
  long = omega (arith, syn_ack_lengths.0);
  whole = omega (arith, syn_ack_lengths.2);
  port = ap (find_sock_by_port connecting_host) syn_ack_dst ∙ syn_ack_port;
  tcp_header = omega (arith, syn_ack_lengths.1);
  inside = omega (arith, syn_ack_lengths.0, syn_ack_lengths.1, syn_ack_lengths.2);
}

tcp_handle_packet-IsHandshake_example :
    IsHandshake connecting_host
      (tcp_handle_packet (net_arp_resolve 3) syn_ack_frame 54 connecting_host)
      syn_ack_frame
      0
tcp_handle_packet-IsHandshake_example =
    tcp_handle_packet-IsHandshake 3 connecting_host syn_ack_frame 54 0 syn_ack_frame-IsSegment refl
      refl

-- The call of `tcp_connect` that waits in vain, and `tcp_close`.
abbrev tried : Host
tried = (tcp_connect 5 peer_ip 80 1000 (tcp_init quiet)).1

Reachable-IsSane_example : IsSane (tcp_close 5 0 tried)
Reachable-IsSane_example = Reachable-IsSane (tcp_close 5 0 tried) (
    Reachable.closed tried 5 0
      (Reachable.connected (tcp_init quiet) 5 peer_ip 80 1000 (Reachable.initialised quiet)))
