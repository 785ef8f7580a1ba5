-- ===== src/Endpoint/Texts.antt =====
-- The text of an endpoint of src/endpoint.cpp and src/address.cpp.
use smart_routine.Prelude.{
  ℕ, zero, suc, ◌+◌, ◌-◌, ◌*◌, ◌/◌, ◌%◌, ◌<◌, ◌^◌, ◌≡◌, refl, ap, true, Option, some, List, [], ◌∷◌,
  ◌++◌, arith, ◌==◌, ==→eq, Bool-cases, inl, inr,
}
use smart_routine.ErrorCode.{ErrorCode}
use smart_routine.Endpoint.{
  AddressType, ipv4, SockAddr, Endpoint, htons, copy_addr, convert_to_sockaddr_in, new, contains,
  parsed, make_address, make_endpoint, decimal, address_to_string, to_string,
}

-- What a text of decimal digits says, read on from `n`.
abbrev pub value : ℕ → List ℕ → ℕ
value n [] = n
value n (c ∷ cs) = value (n * 10 + (c - 48)) cs

abbrev pub AreDigits : List ℕ → Type 0
AreDigits [] = Unit
AreDigits (c ∷ cs) = (47 < c) × (c < 58) × AreDigits cs

value-append : (n : ℕ) (cs : List ℕ) (c : ℕ) → value n (cs ++ c ∷ []) ≡ value n cs * 10 + (c - 48)
value-append n [] c = refl
value-append n (x ∷ cs) c = value-append (n * 10 + (x - 48)) cs c

AreDigits-append : (cs : List ℕ) (c : ℕ) → AreDigits cs → 47 < c → c < 58 → AreDigits (cs ++ c ∷ [])
AreDigits-append [] c h low high = (low, high, tt)
AreDigits-append (x ∷ cs) c h low high = (h.0, h.1, AreDigits-append cs c h.2 low high)

-- With digits enough the text says the number.
decimal-value :
    (n port : ℕ) → port < 10 ^ n → (value 0 (decimal n port) ≡ port) × AreDigits (decimal n port)
unfolding decimal
decimal-value zero port lt = (omega arith, tt)
decimal-value (suc n) port lt = elim (Bool-cases (port / 10 == 0)) [
  | inl e ↦
      let small : port < 10 = omega (arith, ==→eq (port / 10) 0 e) in
      rw e (omega arith, (omega arith, omega arith, tt))
  | inr e ↦
      let (said, digits) = decimal-value n (port / 10) (omega arith) in
      let last = value-append 0 (decimal n (port / 10)) (48 + port % 10) in
      rw e (
        omega (arith, last, said),
        AreDigits-append (decimal n (port / 10)) (48 + port % 10) digits (omega arith)
            (omega arith),
      )
]

-- The text of an IPv4 endpoint is the one that it was made from: for an address text that inet_pton
-- takes and inet_ntop gives back, make_endpoint reports no error, and to_string gives that text, a
-- colon, and digits that say the port.
pub to_string-make_endpoint :
    (pton : AddressType → List ℕ → Option ℕ) (ntop : AddressType → ℕ → List ℕ) (before : SockAddr)
    (ip : List ℕ) (port addr : ℕ) (ec : ErrorCode)
    → contains 46 ip ≡ true
    → pton ipv4 ip ≡ some addr
    → ntop ipv4 addr ≡ ip
    → port < 65536
    → (e : Endpoint) × (digits : List ℕ) × (make_endpoint pton before ip port ec ≡ some (e, ec))
      × (to_string ntop e ≡ some (ip ++ 58 ∷ digits))
      × (value 0 digits ≡ port)
      × AreDigits digits
unfolding make_endpoint make_address parsed new convert_to_sockaddr_in copy_addr to_string
    address_to_string
to_string-make_endpoint pton ntop before ip port addr ec dotted parses prints small =
    let (said, digits) = decimal-value 5 port (omega arith) in
    (
      record {
        sockaddr = record { family = 2; port = htons port; addr = some addr };
        address = record { addr = some addr; type = ipv4 };
        port = port;
      },
      decimal 5 port,
      rw (dotted, parses) refl,
      ap (λ text. some (text ++ 58 ∷ decimal 5 port)) prints,
      said,
      digits,
    )
