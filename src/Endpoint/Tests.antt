-- ===== src/Endpoint/Tests.antt =====
-- src/endpoint.cpp and src/address.cpp at small inputs.
use smart_routine.Prelude.{
  if◌then◌else◌, ◌==◌, ℕ, ◌%◌, ◌/◌, ◌≡◌, ◌≢◌, refl, Option, some, none, List, [], ◌∷◌, arith,
}
use smart_routine.ErrorCode.{success, invalid_argument}
use smart_routine.Endpoint.{
  AddressType, Address, unset, ipv4, ipv6, SockAddr, Endpoint, htons, copy_addr,
  convert_to_sockaddr_in, new, make_address, parsed, to_sockaddr_in, from_sockaddr, new_address,
  make_endpoint, default_endpoint, decimal, address_to_string, to_string,
}
use smart_routine.Endpoint.Texts.{value, AreDigits, to_string-make_endpoint}
use smart_routine.Endpoint.Ports.{from_sockaddr-swaps}

abbrev no_sockaddr : SockAddr
no_sockaddr = record { family = 0; port = 0; addr = none }

abbrev no_endpoint : Endpoint
no_endpoint = record {
  sockaddr = no_sockaddr;
  address = record { addr = none; type = unset };
  port = 65535;
}

-- A parser that takes what begins with 1.
abbrev loopback : AddressType → List ℕ → Option ℕ
loopback ipv4 (c ∷ cs) = if c == 49 then some 2130706433 else none
loopback _ _ = none

make_address_runs :
    make_address loopback (49 ∷ 46 ∷ []) success
    ≡ (record { addr = some 2130706433; type = ipv4 }, success)
unfolding make_address parsed
make_address_runs = refl

-- The text is refused, and the address still says that it is of version 4.
make_address_refuses :
    make_address loopback (50 ∷ 46 ∷ []) success
    ≡ (record { addr = none; type = ipv4 }, invalid_argument)
unfolding make_address parsed
make_address_refuses = refl

-- The copy of 28 bytes reads past the end of the endpoint.
v6_outside : new no_sockaddr (record { addr = some 1; type = ipv6 }) 80 ≡ none
unfolding new convert_to_sockaddr_in copy_addr
v6_outside = refl

from_sockaddr-swaps_example :
    (let a : Address = record { addr = some 2130706433; type = ipv4 } in
      (e : Endpoint) × (sa : SockAddr) × (new no_sockaddr a 8080 ≡ some e)
      × (to_sockaddr_in e ≡ some sa)
      × ((from_sockaddr sa no_endpoint).address ≡ a)
      × ((from_sockaddr sa no_endpoint).port ≡ htons 8080)
      × (htons (htons 8080) ≡ 8080)
      × (8080 % 256 ≢ 8080 / 256 → htons 8080 ≢ 8080)
      × ((from_sockaddr sa no_endpoint).sockaddr ≡ no_endpoint.sockaddr))
from_sockaddr-swaps_example =
    from_sockaddr-swaps no_sockaddr (some 2130706433) 8080 no_endpoint (omega arith)

-- A printer for the one address that the parser knows.
abbrev print_one : AddressType → ℕ → List ℕ
print_one t addr = 49 ∷ 46 ∷ []

port_text :
    to_string print_one
      (record no_endpoint { address = record { addr = some 2130706433; type = ipv4 }; port = 8080 })
    ≡ some (49 ∷ 46 ∷ 58 ∷ 56 ∷ 48 ∷ 56 ∷ 48 ∷ [])
unfolding to_string address_to_string decimal
port_text = refl

-- An endpoint without an address has no text.
no_text : to_string print_one (default_endpoint no_sockaddr) ≡ none
unfolding to_string address_to_string default_endpoint new_address
no_text = refl

to_string-make_endpoint_example :
    (e : Endpoint) × (digits : List ℕ) × (make_endpoint loopback no_sockaddr
        (49 ∷ 46 ∷ [])
        8080
        success
      ≡ some (e, success))
    × (to_string print_one e ≡ some (49 ∷ 46 ∷ 58 ∷ digits))
    × (value 0 digits ≡ 8080)
    × AreDigits digits
to_string-make_endpoint_example =
    to_string-make_endpoint loopback print_one no_sockaddr (49 ∷ 46 ∷ []) 8080 2130706433 success
      refl refl refl (omega arith)
