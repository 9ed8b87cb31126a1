-- ===== src/Net/SaneReceive.antt =====
-- The sockets under the receiving functions of kernel/net/net.c, which call each other.
use noverix.Base.{
  ℕ, zero, suc, ◌+◌, ◌-◌, ◌*◌, ◌^◌, ◌≡◌, ◌⊎◌, inl, inr, refl, arith, ◌==◌, ltb, ◌&&◌, not,
  if◌then◌else◌, Option, some, u32, sub32, Bool-cases, Option-cases, subst, List, [], ◌∷◌,
}
use noverix.Memory.{Mem, load16}
use noverix.Net.{net_htons}
use noverix.Net.Host.{Event, Host, poll_round}
use noverix.Net.Arp.{send_arp_request, cache_reply, answer_request, handle_arp, is_cached}
use noverix.Net.Icmp.{ip_hlen, send_icmp_echo, handle_icmp, check_icmp_checksum}
use noverix.Net.Receive.{
  is_good_ip, handle_ip, net_parse_packet, arp_wait, net_arp_resolve, receive, ping_wait,
  ping_target, ping_gateway, net_ping,
}
use noverix.Net.Sane.{
  IsSane, guarded, guarded_result, rtl8139_send-IsSane, tcp_handle_packet-IsSane,
}

pub send_arp_request-IsSane : (ip : ℕ) (h : Host) → IsSane h → IsSane (send_arp_request ip h)
unfolding send_arp_request
send_arp_request-IsSane ip h v = rtl8139_send-IsSane _ 42 h v

pub handle_arp-IsSane : (pkt : Mem) (len : ℕ) (h : Host) → IsSane h → IsSane (handle_arp pkt len h)
unfolding handle_arp answer_request cache_reply
handle_arp-IsSane pkt len h v =
    let cached : IsSane (cache_reply pkt h) = guarded _ _ h v v in
    guarded _ _ (cache_reply pkt h) (rtl8139_send-IsSane _ 42 (cache_reply pkt h) cached) cached

pub handle_icmp-IsSane :
    (pkt : Mem) (len : ℕ) (h : Host) → IsSane h → IsSane (handle_icmp pkt len h)
unfolding handle_icmp
handle_icmp-IsSane pkt len h v =
    let icmp : ℕ = 14 + ip_hlen pkt in
    let icmp_len : ℕ = u32 (len + 2 ^ 32 - icmp) in
    elim (Bool-cases (ltb (ip_hlen pkt) 20)) [
      | inl a ↦ rw a v
      | inr a ↦ elim (Bool-cases (ltb icmp_len 8)) [
        | inl b ↦ rw (a, b) v
        | inr b ↦ elim (Bool-cases (check_icmp_checksum pkt icmp icmp_len)) [
          | inr c ↦ rw (a, b, c) v
          | inl c ↦ elim (Bool-cases (pkt icmp == 0)) [
            | inr d ↦ rw (a, b, c, d) v
            | inl d ↦ rw (a, b, c, d) v
          ]
        ]
      ]
    ]

module _ (resolve : (ip : ℕ) → Host → Option Mem × Host)
    (keeps : (ip : ℕ) (h : Host) → IsSane h → IsSane (resolve ip h).1) where
  handle_ip-IsSane :
      (pkt : Mem) (len : ℕ) (h : Host) → IsSane h → IsSane (handle_ip resolve pkt len h)
  handle_ip-IsSane pkt len h v =
      let after_icmp : Host =
        if (pkt 23 == 1) && not (ltb len (14 + ip_hlen pkt + 8))
        then handle_icmp pkt len h
        else h in
      let first : IsSane after_icmp = guarded _ _ h (handle_icmp-IsSane pkt len h v) v in
      guarded _ _ after_icmp (tcp_handle_packet-IsSane resolve keeps pkt len after_icmp first) first

  pub net_parse_packet-IsSane :
      (pkt : Mem) (len : ℕ) (h : Host) → IsSane h → IsSane (net_parse_packet resolve pkt len h).1
  unfolding net_parse_packet
  net_parse_packet-IsSane pkt len h v =
      let type : ℕ = net_htons (load16 pkt 12) in
      elim (Bool-cases (ltb len 14)) [
        | inl a ↦ rw a v
        | inr a ↦ elim (Bool-cases (type == 0x0806)) [
          | inl b ↦ rw (a, b) (guarded _ h _ v (handle_arp-IsSane pkt len h v))
          | inr b ↦ elim (Bool-cases (type == 0x0800)) [
            | inl c ↦
                rw (a, b, c)
                  (guarded (ltb len 34) h
                    (if is_good_ip pkt len then handle_ip resolve pkt len h else h) v
                    (guarded (is_good_ip pkt len) (handle_ip resolve pkt len h) h
                      (handle_ip-IsSane pkt len h v) v))
            | inr c ↦ rw (a, b, c) v
          ]
        ]
      ]

pub events-cases :
    (es : List Event) → (es ≡ []) ⊎ ((e : Event) × (rest : List Event) × (es ≡ e ∷ rest))
events-cases [] = inl refl
events-cases (e ∷ rest) = inr (e, rest, refl)

-- A round of a loop keeps the sockets sane if its handler does.
pub poll_round-IsSane :
    (handle : Mem → ℕ → Host → Host)
    → ((pkt : Mem) (len : ℕ) (h : Host) → IsSane h → IsSane (handle pkt len h))
    → (start limit : ℕ) (h t : Host) → IsSane h
    → poll_round handle start limit h ≡ some t
    → IsSane t
unfolding poll_round
poll_round-IsSane handle keeps start limit h t v e = elim (events-cases h.events) [
  | inl q ↦ absurd (ground (arith, q, e))
  | inr (event, rest, q) ↦
      let next : Host = record h { ticks = event.now; events = rest } in
      elim (Bool-cases (ltb (sub32 event.now start) limit)) [
        | inr late ↦ absurd (ground (arith, q, late, e))
        | inl on_time ↦ elim (Option-cases event.frame) [
          | inl f ↦ let same : next ≡ t = ground (arith, q, on_time, f, e) in subst IsSane same v
          | inr ((pkt, len), f) ↦
              let same : handle pkt len next ≡ t = ground (arith, q, on_time, f, e) in
              subst IsSane same (keeps pkt len next v)
        ]
      ]
]

-- What a function is to keep that handles a frame, and one that looks for an address.
abbrev pub HandlesSane : (Mem → ℕ → Host → Host) → Type 0
HandlesSane handle = (pkt : Mem) (len : ℕ) (h : Host) → IsSane h → IsSane (handle pkt len h)

arp_wait-IsSane :
    (handle : Mem → ℕ → Host → Host)
    → HandlesSane handle
    → (n ip start : ℕ) (h : Host) → IsSane h
    → IsSane (arp_wait handle n ip start h).1
unfolding arp_wait
arp_wait-IsSane handle keeps zero ip start h v = v
arp_wait-IsSane handle keeps (suc n) ip start h v =
    elim (Option-cases (poll_round handle start 50 h)) [
      | inl e ↦ rw (arp_wait, e) v
      | inr (t, e) ↦
          let w : IsSane t = poll_round-IsSane handle keeps start 50 h t v e in
          elim (Bool-cases (is_cached t ip)) [
            | inl c ↦ rw (arp_wait, e, c) w
            | inr c ↦ rw (arp_wait, e, c) (arp_wait-IsSane handle keeps n ip start t w)
          ]
    ]

pub net_arp_resolve-IsSane :
    (rounds ip : ℕ) (h : Host) → IsSane h → IsSane (net_arp_resolve rounds ip h).1
unfolding net_arp_resolve
net_arp_resolve-IsSane zero ip h v = elim (Bool-cases (is_cached h ip)) [
  | inl c ↦ rw (net_arp_resolve, c) v
  | inr c ↦ rw (net_arp_resolve, c) (send_arp_request-IsSane ip h v)
]
net_arp_resolve-IsSane (suc n) ip h v =
    let asked : Host = send_arp_request ip h in
    let keeps : HandlesSane
        (λ pkt len t. (net_parse_packet (λ a u. net_arp_resolve n a u) pkt len t).1) =
      net_parse_packet-IsSane (λ a u. net_arp_resolve n a u) (net_arp_resolve-IsSane n) in
    elim (Bool-cases (is_cached h ip)) [
      | inl c ↦ rw (net_arp_resolve, c) v
      | inr c ↦
          rw (net_arp_resolve, c)
            (arp_wait-IsSane
              (λ pkt len t. (net_parse_packet (λ a u. net_arp_resolve n a u) pkt len t).1) keeps n
              ip asked.ticks asked (send_arp_request-IsSane ip h v))
    ]

pub receive-IsSane : (rounds : ℕ) → HandlesSane (receive rounds)
receive-IsSane rounds =
    net_parse_packet-IsSane (net_arp_resolve rounds) (net_arp_resolve-IsSane rounds)

ping_wait-IsSane :
    (handle : Mem → ℕ → Host → Host)
    → HandlesSane handle
    → (n start limit : ℕ) (h : Host) → IsSane h
    → IsSane (ping_wait handle n start limit h).1
unfolding ping_wait
ping_wait-IsSane handle keeps zero start limit h v = v
ping_wait-IsSane handle keeps (suc n) start limit h v =
    elim (Option-cases (poll_round handle start limit h)) [
      | inl e ↦ rw (ping_wait, e) v
      | inr (t, e) ↦
          let w : IsSane t = poll_round-IsSane handle keeps start limit h t v e in
          rw (ping_wait, e)
            (guarded_result t.ping_reply_received (some (u32 (sub32 t.ticks start * 10)), t)
              (ping_wait handle n start limit t) w
              (ping_wait-IsSane handle keeps n start limit t w))
    ]

ping_gateway-IsSane :
    (rounds ip ms : ℕ) (mac : Mem) (h : Host)
    → IsSane h
    → IsSane (ping_gateway rounds ip ms mac h).1
unfolding ping_gateway send_icmp_echo
ping_gateway-IsSane rounds ip ms mac h v =
    ping_wait-IsSane (receive rounds) (receive-IsSane rounds) rounds h.ticks _ _
      (rtl8139_send-IsSane _ 98 _ v)

pub net_ping-IsSane : (rounds ip ms : ℕ) (h : Host) → IsSane h → IsSane (net_ping rounds ip ms h).1
unfolding net_ping
net_ping-IsSane rounds ip ms h v =
    let target : ℕ = ping_target ip in
    let first : Host = (net_arp_resolve rounds target h).1 in
    let w : IsSane first = net_arp_resolve-IsSane rounds target h v in
    let second : Host = (net_arp_resolve rounds target first).1 in
    let u : IsSane second = net_arp_resolve-IsSane rounds target first w in
    elim (Option-cases (net_arp_resolve rounds target h).0) [
      | inr (mac, e) ↦ rw (net_ping, e) (ping_gateway-IsSane rounds ip ms mac first w)
      | inl e ↦ elim (Option-cases (net_arp_resolve rounds target first).0) [
        | inr (mac, f) ↦ rw (net_ping, e, f) (ping_gateway-IsSane rounds ip ms mac second u)
        | inl f ↦ rw (net_ping, e, f) u
      ]
    ]
