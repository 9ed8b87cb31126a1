-- ===== src/Net/Arp.antt =====
-- ARP in kernel/net/net.c: `send_arp_request`, `handle_arp` and the cache.
use noverix.Base.{ℕ, ◌+◌, ◌==◌, ◌&&◌, if◌then◌else◌, Bool, true, update}
use noverix.Memory.{Mem, load16, load32, store16, store32}
use noverix.Net.{net_htons, net_htonl}
use noverix.Net.Host.{Host, eth_arp, eth_ip, net_host_ip, copy_bytes, no_bytes, rtl8139_send}

-- The fields that requests and replies share; `dst` is the destination of the frame and `tha` the
-- hardware address of the target.
unfoldable pub arp_packet : Host → (dst : Mem) → (oper : ℕ) → (tha : Mem) → (tpa : ℕ) → Mem
arp_packet h dst oper tha tpa =
    let p0 = copy_bytes no_bytes 0 dst 0 6 in
    let p1 = copy_bytes p0 6 h.own_mac 0 6 in
    let p2 = store16 p1 12 (net_htons eth_arp) in
    let p3 = store16 p2 14 (net_htons 1) in
    let p4 = store16 p3 16 (net_htons eth_ip) in
    let p5 = update (update p4 18 6) 19 4 in
    let p6 = store16 p5 20 (net_htons oper) in
    let p7 = copy_bytes p6 22 h.own_mac 0 6 in
    let p8 = store32 p7 28 (net_htonl net_host_ip) in
    let p9 = copy_bytes p8 32 tha 0 6 in store32 p9 38 tpa

abbrev pub broadcast : Mem
broadcast k = 0xFF

unfoldable pub send_arp_request : (ip : ℕ) → Host → Host
send_arp_request ip h = (rtl8139_send (arp_packet h broadcast 1 no_bytes (net_htonl ip)) 42 h).1

abbrev pub arp_oper : Mem → ℕ
arp_oper pkt = net_htons (load16 pkt 20)

-- `arp->tpa == net_htonl(NET_HOST_IP)`
abbrev pub is_for_us : Mem → Bool
is_for_us pkt = load32 pkt 38 == net_htonl net_host_ip

unfoldable pub cache_reply : Mem → Host → Host
cache_reply pkt h =
    if (arp_oper pkt == 2) && is_for_us pkt
    then record h {
      arp_cache_ip = net_htonl (load32 pkt 28);
      arp_cache_mac = copy_bytes h.arp_cache_mac 0 pkt 22 6;
      arp_cache_valid = true;
    }
    else h

-- The sender's hardware address.
abbrev pub sha : Mem → Mem
sha pkt k = pkt (22 + k)

unfoldable pub answer_request : Mem → Host → Host
answer_request pkt h =
    if (arp_oper pkt == 1) && is_for_us pkt
    then (rtl8139_send (arp_packet h (sha pkt) 2 (sha pkt) (load32 pkt 28)) 42 h).1
    else h

unfoldable pub handle_arp : Mem → (len : ℕ) → Host → Host
handle_arp pkt len h = answer_request pkt (cache_reply pkt h)

-- `arp_cache_valid && arp_cache_ip == ip`
abbrev pub is_cached : Host → (ip : ℕ) → Bool
is_cached h ip = h.arp_cache_valid && (h.arp_cache_ip == ip)
