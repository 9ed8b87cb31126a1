-- ===== src/Net/Tests.antt =====
-- The checksum and the addresses at concrete inputs.
use noverix.Base.{◌+◌, ◌*◌, ◌^◌, ◌-◌, ◌≡◌, refl, arith, some, get_or, ◌%◌}
use noverix.Memory.{load16, Mem, store16}
use noverix.Net.{fold_sum, sum_words, complement, aton_from, net_checksum, net_ip_aton}
use noverix.Net.Checksum.{total, last_byte, ones_sum, net_checksum-ones_sum, net_checksum-store16}
use noverix.Net.Addresses.{decimal, dotted, net_ip_aton-dotted}

-- Bytes counting up from 0, at every address.
abbrev counting : Mem
counting = λ a. a % 256

abbrev gateway : Mem
gateway = λ a. get_or (dotted 10 0 2 255) a 0

parsed : net_ip_aton 12 gateway 0 ≡ some 0x0A0002FF
unfolding net_ip_aton aton_from dotted decimal
parsed = refl

net_checksum-ones_sum_example :
    net_checksum counting 14 5
    ≡ some (65535 - ones_sum (total counting 14 0 2 + last_byte counting 14 5))
net_checksum-ones_sum_example = net_checksum-ones_sum counting 14 5 (λ a. omega arith) (omega arith)

checksum_value : net_checksum (store16 counting (14 + 2 * 5) 0) 14 20 ≡ some 10289
unfolding net_checksum complement fold_sum sum_words load16 store16
checksum_value = refl

net_checksum-store16_example : net_checksum (store16 counting (14 + 2 * 5) 10289) 14 20 ≡ some 0
net_checksum-store16_example =
    net_checksum-store16 counting 14 20 5 10289 (λ a. omega arith) (omega arith) (omega arith)
      checksum_value

net_ip_aton-dotted_example :
    net_ip_aton 12 gateway 0 ≡ some (10 * 2 ^ 24 + 0 * 2 ^ 16 + 2 * 2 ^ 8 + 255)
unfolding dotted decimal
net_ip_aton-dotted_example =
    net_ip_aton-dotted 12 gateway 0 10 0 2 255 (omega arith) (omega arith) (omega arith)
      (omega arith) (ground arith) (omega arith)
