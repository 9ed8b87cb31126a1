-- ===== src/Net.antt =====
-- kernel/net/net.c and kernel/net/net.h: byte order, the Internet checksum and dotted addresses.
pub mod Checksum
pub mod Addresses
pub mod Host
pub mod Arp
pub mod Icmp
pub mod Tcp
pub mod Receive
pub mod Sockets
pub mod Sane
pub mod SaneReceive
pub mod SaneSockets
pub mod Runs
pub mod Segments
pub mod Received
pub mod Handshake
mod Tests
mod TcpTests
use noverix.Base.{
  ℕ, zero, suc, ◌+◌, ◌-◌, ◌*◌, ◌/◌, ◌%◌, ◌^◌, ◌==◌, leb, ◌&&◌, if◌then◌else◌, u16, u32, bit_and,
  bit_or, bit_not, Option, none, some,
}
use noverix.Memory.{Mem, load16}

-- `__builtin_bswap16` and `__builtin_bswap32`
unfoldable pub net_htons : ℕ → ℕ
net_htons x = x % 256 * 2 ^ 8 + x / 2 ^ 8 % 256

unfoldable pub net_htonl : ℕ → ℕ
net_htonl x =
    x % 256 * 2 ^ 24 + x / 2 ^ 8 % 256 * 2 ^ 16 + x / 2 ^ 16 % 256 * 2 ^ 8 + x / 2 ^ 24 % 256

-- `for (i = …; …; i++) sum += ptr[i]`, with the rounds that are left.
unfoldable pub sum_words : Mem → (ptr i n sum : ℕ) → ℕ
sum_words m ptr i zero sum = sum
sum_words m ptr i (suc n) sum = sum_words m ptr (i + 1) n (u32 (sum + load16 m (ptr + 2 * i)))

-- `while (sum >> 16) …`, none where the fuel runs out.
unfoldable pub fold_sum : (fuel sum : ℕ) → Option ℕ
fold_sum zero sum = none
fold_sum (suc f) sum =
    let rest = fold_sum f (u32 (bit_and sum 0xFFFF + sum / 2 ^ 16)) in
    if sum / 2 ^ 16 == 0 then some sum else rest

unfoldable pub complement : Option ℕ → Option ℕ
complement none = none
complement (some sum) = some (bit_not 16 (u16 sum))

-- Three rounds of fuel: the sum is below 2^16 after two.
unfoldable pub net_checksum : Mem → (ptr len : ℕ) → Option ℕ
net_checksum m ptr len =
    let words = sum_words m ptr 0 (len / 2) 0 in
    let sum = if bit_and len 1 == 0 then words else u32 (words + m (ptr + (len - 1))) in
    complement (fold_sum 3 sum)

-- The loop of `net_ip_aton`, none where the fuel runs out before the string does.
unfoldable pub aton_from : (fuel : ℕ) → Mem → (str ip val : ℕ) → Option ℕ
aton_from zero m str ip val = none
aton_from (suc f) m str ip val =
    let part = bit_or (u32 (ip * 2 ^ 8)) (bit_and val 0xFF) in
    let after_dot = aton_from f m (str + 1) part 0 in
    let after_digit = aton_from f m (str + 1) ip (u32 (val * 10 + (m str - b'0'))) in
    let after_other = aton_from f m (str + 1) ip val in
    if m str == 0
    then some part
    else if m str == b'.'
    then after_dot
    else if leb b'0' (m str) && leb (m str) b'9'
    then after_digit
    else after_other

unfoldable pub net_ip_aton : (fuel : ℕ) → Mem → (str : ℕ) → Option ℕ
net_ip_aton f m str = aton_from f m str 0 0
