-- ===== src/Net/Icmp.antt =====
-- ICMP in kernel/net/net.c: the echo request and the check of what comes back.
use noverix.Base.{
  ℕ, zero, suc, ◌+◌, ◌-◌, ◌*◌, ◌==◌, ◌^◌, ltb, if◌then◌else◌, Bool, true, Option, none, some,
  update, u8, u32, bit_and,
}
use noverix.Memory.{Mem, load16, store16, store32}
use noverix.Net.{net_htons, net_htonl, net_checksum}
use noverix.Net.Host.{
  Host, eth_ip, ip_icmp, icmp_echo_req, icmp_echo_rep, net_host_ip, copy_bytes, no_bytes,
  rtl8139_send,
}

-- The checksum, which `net_checksum` always finds.
abbrev pub or_zero : Option ℕ → ℕ
or_zero none = 0
or_zero (some sum) = sum

-- The Ethernet and the IP header of a frame to `dst`.
unfoldable pub ip_headers : Host → (dst : Mem) → (ip_total id protocol dst_ip : ℕ) → Mem
ip_headers h dst ip_total id protocol dst_ip =
    let p0 = copy_bytes no_bytes 0 dst 0 6 in
    let p1 = copy_bytes p0 6 h.own_mac 0 6 in
    let p2 = store16 p1 12 (net_htons eth_ip) in
    let p3 = update (update p2 14 0x45) 15 0 in
    let p4 = store16 p3 16 (net_htons ip_total) in
    let p5 = store16 p4 18 (net_htons id) in
    let p6 = store16 p5 20 0 in
    let p7 = update (update p6 22 64) 23 protocol in
    let p8 = store16 p7 24 0 in
    let p9 = store32 p8 26 (net_htonl net_host_ip) in
    let p10 = store32 p9 30 (net_htonl dst_ip) in store16 p10 24 (or_zero (net_checksum p10 14 20))

-- `for (i = …; i < 56; i++) data[i] = i`, with the rounds that are left.
unfoldable pub count_up : Mem → (at i n : ℕ) → Mem
count_up m at i zero = m
count_up m at i (suc n) = count_up (update m (at + i) (u8 i)) at (i + 1) n

unfoldable pub echo_packet : Host → (dst_ip id seq : ℕ) → Mem
echo_packet h dst_ip id seq =
    let p0 = ip_headers h h.arp_cache_mac 84 1 ip_icmp dst_ip in
    let p1 = store16 (update (update p0 34 icmp_echo_req) 35 0) 36 0 in
    let p2 = store16 (store16 p1 38 (net_htons id)) 40 (net_htons seq) in
    let p3 = count_up p2 42 0 56 in store16 p3 36 (or_zero (net_checksum p3 34 64))

unfoldable pub send_icmp_echo : (dst_ip id seq : ℕ) → Host → Host
send_icmp_echo dst_ip id seq h = (rtl8139_send (echo_packet h dst_ip id seq) 98 h).1

-- The packet is as before afterwards: the checksum is taken out and put back.
unfoldable pub check_icmp_checksum : Mem → (icmp total_len : ℕ) → Bool
check_icmp_checksum pkt icmp total_len =
    load16 pkt (icmp + 2) == or_zero (net_checksum (store16 pkt (icmp + 2) 0) icmp total_len)

abbrev pub ip_hlen : Mem → ℕ
ip_hlen pkt = bit_and (pkt 14) 0x0F * 4

unfoldable pub handle_icmp : Mem → (len : ℕ) → Host → Host
handle_icmp pkt len h =
    let icmp = 14 + ip_hlen pkt in
    if ltb (ip_hlen pkt) 20
    then h
    else if ltb (u32 (len + 2 ^ 32 - icmp)) 8
    then h
    else if check_icmp_checksum pkt icmp (u32 (len + 2 ^ 32 - icmp))
    then (if pkt icmp == icmp_echo_rep
        then record h {
          ping_reply_id = net_htons (load16 pkt (icmp + 4));
          ping_reply_seq = net_htons (load16 pkt (icmp + 6));
          ping_reply_received = true;
        }
        else h)
    else h
