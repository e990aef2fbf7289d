-- ===== src/Address/Tests.antt =====
-- Tests and instances for src/address.cc.
use ztyco.Base.{
  ◌-◌, ◌+◌, ◌%◌, ◌^◌, ◌≤◌, ◌≡◌, refl, true, false, none, some, [], ◌∷◌, ◌++◌, replicate, arith, ok,
  ◌↔◌, ◌⊎◌, not, ◌&&◌, Str,
}
use ztyco.Address.{
  Ipv4, ipv4, Ipv6, network_address, broadcast_address, subnet_mask, broadcast_address6,
  count_bytes, count_loop, get_port, set_port, swapped_bytes, create_mask, byteswap16, subnet_mask6,
}
use ztyco.Address.Count.{ones, count_bytes_lem}
use ztyco.Address.Masks.{number, IsBytes, prefix_addresses}
use ztyco.Address.Order.{View, less, equal, less_lem, precedes, seen}
use ztyco.Address.Text.{insert4, insert6, chr, dec, hex, insert6-compressed, compressed, words}
use ztyco.Address.Hosts.{split_host_lem}
use ztyco.Address.Resolve.{split_host, word_of, count_each, bracket, end_bracket, colon}
use ztyco.Address.Prefixes.{count-subnet_mask}

-- 192.168.37.5:80
abbrev host : Ipv4
host = record { family = 2; port = 0x5000; addr = 192 ∷ 168 ∷ 37 ∷ 5 ∷ []; padding = replicate 8 0 }

host_lem : ipv4 0xc0a82505 80 ≡ host
unfolding ipv4
host_lem = refl

host_text :
    insert4 host
    ≡ dec 192 ∷ chr 46 ∷ dec 168 ∷ chr 46 ∷ dec 37 ∷ chr 46 ∷ dec 5 ∷ chr 58 ∷ dec 80 ∷ []
unfolding insert4
host_text = refl

network_runs : network_address host 20 ≡ ok (some (record host { addr = 192 ∷ 168 ∷ 32 ∷ 0 ∷ [] }))
unfolding network_address swapped_bytes create_mask
network_runs = refl

abbrev six : Ipv6
six = record {
  family = 10;
  port = 0x5000;
  flowinfo = 0;
  addr = 0x20 ∷ 0x01 ∷ 0x0d ∷ 0xb8 ∷ replicate 11 0 ++ 9 ∷ [];
  scope_id = 0;
}

six_text :
    insert6 six
    ≡ chr 91
      ∷ hex 0x2001
      ∷ chr 58
      ∷ hex 0x0db8
      ∷ chr 58
      ∷ chr 58
      ∷ hex 9
      ∷ chr 93
      ∷ chr 58
      ∷ dec 80
      ∷ []
unfolding insert6 byteswap16
six_text = refl

six_broadcast :
    broadcast_address6 six 120
    ≡ ok (record six { addr = 0x20 ∷ 0x01 ∷ 0x0d ∷ 0xb8 ∷ replicate 11 0 ++ 255 ∷ [] })
unfolding broadcast_address6
six_broadcast = refl

ports : get_port (set_port 8080) ≡ 8080
unfolding get_port set_port
ports = refl

host-IsBytes : IsBytes host.addr 192 168 37 5
host-IsBytes = record {
  shape = refl;
  first = omega arith;
  second = omega arith;
  third = omega arith;
  fourth = omega arith;
}

prefix_addresses_example :
    let k = 32 - 20 in
    let x = number host.addr in
    (n : Ipv4) × (c : Ipv4) × (m : Ipv4) × (network_address host 20 ≡ ok (some n))
    × (broadcast_address host 20 ≡ ok (some c))
    × (subnet_mask 20 ≡ ok m)
    × (number n.addr ≡ x - x % 2 ^ k)
    × (number c.addr ≡ x - x % 2 ^ k + (2 ^ k - 1))
    × (number n.addr ≤ x)
    × (x ≤ number c.addr)
    × (number m.addr ≡ 2 ^ 32 - 2 ^ k)
prefix_addresses_example =
    prefix_addresses host 192 168 37 5 20 host-IsBytes (omega arith) (omega arith)

count_bytes_lem_example :
    (count_bytes 0xfff0 ≡ ones 16 0xfff0) × (count_loop 20 0xfff0 0 ≡ count_bytes 0xfff0)
count_bytes_lem_example = count_bytes_lem 16 0xfff0 20 (omega arith) (omega arith)

abbrev view_a : View
view_a = record { bytes = 2 ∷ 0 ∷ 1 ∷ []; len = 3 }

abbrev view_b : View
view_b = record { bytes = 2 ∷ 0 ∷ 1 ∷ 7 ∷ []; len = 4 }

less_lem_example :
    (less view_a view_b ≡ precedes (seen view_a) (seen view_b))
    × ((equal view_a view_b ≡ true) ↔ (seen view_a ≡ seen view_b))
    × (less view_a view_a ≡ false)
    × ((less view_a view_b && less view_b view_b && not (less view_a view_b)) ≡ false)
    × ((less view_a view_b ≡ true) ⊎ (equal view_a view_b ≡ true) ⊎ (less view_b view_a ≡ true))
less_lem_example = less_lem view_a view_b view_b (omega arith) (omega arith) (omega arith)

-- `/tmp`, and a long name.
abbrev tmp : Str
tmp = 116 ∷ 109 ∷ 112 ∷ []

-- `[::1]:80` and `ab:80`.
split_host_lem_example :
    (split_host (bracket ∷ (58 ∷ 58 ∷ 49 ∷ []) ++ end_bracket ∷ colon ∷ 56 ∷ 48 ∷ [])
      ≡ (58 ∷ 58 ∷ 49 ∷ [], some (56 ∷ 48 ∷ [])))
    × (split_host (bracket ∷ (58 ∷ 58 ∷ 49 ∷ []) ++ end_bracket ∷ []) ≡ (58 ∷ 58 ∷ 49 ∷ [], none))
    × (split_host (97 ∷ 98 ∷ []) ≡ (97 ∷ 98 ∷ [], none))
    × (split_host ((97 ∷ 98 ∷ []) ++ colon ∷ 56 ∷ 48 ∷ []) ≡ (97 ∷ 98 ∷ [], some (56 ∷ 48 ∷ [])))
split_host_lem_example =
    split_host_lem 58 97 (58 ∷ 49 ∷ []) (98 ∷ []) (56 ∷ 48 ∷ []) refl (omega arith) refl

count-subnet_mask_example :
    ((m : Ipv4) × (subnet_mask 20 ≡ ok m) × (count_bytes (word_of m.addr) ≡ 20))
    × ((m : Ipv6) × (subnet_mask6 61 ≡ ok m) × (count_each m.addr ≡ 61))
count-subnet_mask_example = count-subnet_mask 20 61 (omega arith) (omega arith) (omega arith)

insert6-compressed_example :
    insert6 six
    ≡ chr 91 ∷ compressed (words six.addr) ++ chr 93 ∷ chr 58 ∷ dec (byteswap16 six.port) ∷ []
insert6-compressed_example = insert6-compressed six
