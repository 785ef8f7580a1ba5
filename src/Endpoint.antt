-- ===== src/Endpoint.antt =====
-- src/endpoint.cpp and src/address.cpp with include/endpoint.h and include/address.h. The bytes of
-- an address are one number, `none` where they were never written; `inet_pton` is the parameter
-- `pton`, and a text is the list of its characters. The layout is that of x86-64: an `Endpoint` has
-- 52 bytes, and its `Address` begins at byte 28 of it. A copy from outside an object has no result.
pub mod Ports
pub mod Texts
mod Tests
use smart_routine.Prelude.{
  ℕ, zero, suc, ◌+◌, ◌*◌, ◌/◌, ◌%◌, Bool, true, false, ◌||◌, Option, none, some, List, [], ◌∷◌,
  ◌++◌, ◌==◌, if◌then◌else◌, leb,
}
use smart_routine.ErrorCode.{ErrorCode, invalid_argument}
use smart_routine.DynamicBuffer.{◌>>=◌}

pub data AddressType : Type 0 where
  unset ipv4 ipv6 : AddressType

pub record Address : Type 0 where
  pub addr : Option ℕ
  pub type : AddressType

-- The default constructor leaves the bytes as they are.
unfoldable pub new_address : Address
new_address = record { addr = none; type = unset }

-- `strchr(text, c) != nullptr`
abbrev pub contains : ℕ → List ℕ → Bool
contains c [] = false
contains c (x ∷ xs) = c == x || contains c xs

-- What `inet_pton` does: `none` where it returns 0.
unfoldable pub parsed : Option ℕ → AddressType → ErrorCode → Address × ErrorCode
parsed none type code = (record { addr = none; type = type }, invalid_argument)
parsed (some addr) type code = (record { addr = some addr; type = type }, code)

unfoldable pub make_address :
    (AddressType → List ℕ → Option ℕ) → List ℕ → ErrorCode → Address × ErrorCode
unfolding parsed new_address
make_address pton address_str code =
    if contains 46 address_str
    then parsed (pton ipv4 address_str) ipv4 code
    else if contains 58 address_str
    then parsed (pton ipv6 address_str) ipv6 code
    else (new_address, invalid_argument)

unfoldable pub set_ipv4_address : Option ℕ → Address → Address
set_ipv4_address addr a = record { addr = addr; type = ipv4 }

unfoldable pub set_ipv6_address : Option ℕ → Address → Address
set_ipv6_address addr a = record { addr = addr; type = ipv6 }

-- A `sockaddr_in` or `sockaddr_in6`; `port` is in network byte order.
pub record SockAddr : Type 0 where
  pub family : ℕ
  pub port : ℕ
  pub addr : Option ℕ

abbrev pub af_inet : ℕ
af_inet = 2

abbrev pub af_inet6 : ℕ
af_inet6 = 10

-- `htons` on a little-endian machine.
unfoldable pub htons : ℕ → ℕ
htons port = port % 256 * 256 + port / 256

-- `sockaddr` is the union of `addr_` and `addr6_`.
pub record Endpoint : Type 0 where
  pub sockaddr : SockAddr
  pub address : Address
  pub port : ℕ

-- `copy_addr` in an endpoint, with the sizes that it is called with: 16 bytes for `sockaddr_in`,
-- 28 for `sockaddr_in6`.
unfoldable pub copy_addr : Address → SockAddr → Option SockAddr
copy_addr a dst = elim a.type [
  | unset ↦ some dst
  | ipv4 ↦ if leb (28 + 16) 52 then some (record dst { addr = a.addr }) else none
  | ipv6 ↦ if leb (28 + 28) 52 then some (record dst { addr = a.addr }) else none
]

unfoldable pub convert_to_sockaddr_in : Endpoint → Option Endpoint
unfolding copy_addr htons
convert_to_sockaddr_in e = elim e.address.type [
  | unset ↦ some e
  | ipv4 ↦ do
    sa ← copy_addr e.address (record { family = af_inet; port = htons e.port; addr = some 0 })
    some (record e { sockaddr = sa })
  | ipv6 ↦ do
    sa ← copy_addr e.address (record { family = af_inet6; port = htons e.port; addr = some 0 })
    some (record e { sockaddr = sa })
]

-- The constructor; `sockaddr` is what stood in the memory before.
unfoldable pub new : SockAddr → Address → ℕ → Option Endpoint
unfolding convert_to_sockaddr_in
new sockaddr address port =
    convert_to_sockaddr_in (record { sockaddr = sockaddr; address = address; port = port })

unfoldable pub make_endpoint :
    (AddressType → List ℕ → Option ℕ)
    → SockAddr
    → List ℕ
    → ℕ
    → ErrorCode
    → Option (Endpoint × ErrorCode)
unfolding make_address new
make_endpoint pton sockaddr ip port ec = do
  let (address, code) = make_address pton ip ec
  e ← new sockaddr address port
  some (e, code)

-- `none` is the null pointer. The size follows from the type.
unfoldable pub to_sockaddr_in : Endpoint → Option SockAddr
to_sockaddr_in e = elim e.address.type [
  | unset ↦ none
  | ipv4 ↦ some e.sockaddr
  | ipv6 ↦ some e.sockaddr
]

unfoldable pub from_sockaddr : SockAddr → Endpoint → Endpoint
unfolding set_ipv4_address set_ipv6_address
from_sockaddr sa e =
    if sa.family == af_inet
    then record e { address = set_ipv4_address sa.addr e.address; port = sa.port }
    else if sa.family == af_inet6
    then record e { address = set_ipv6_address sa.addr e.address; port = sa.port }
    else e

-- `Endpoint()`, with the port -1 as an unsigned short.
unfoldable pub default_endpoint : SockAddr → Endpoint
unfolding new_address
default_endpoint sockaddr = record { sockaddr = sockaddr; address = new_address; port = 65535 }

-- `std::to_string`, with at most `n` digits.
unfoldable pub decimal : ℕ → ℕ → List ℕ
decimal zero port = []
decimal (suc n) port =
    let rest = decimal n (port / 10) in
    if port / 10 == 0 then (48 + port) ∷ [] else rest ++ (48 + port % 10) ∷ []

-- `ntop` is `inet_ntop`. A string is not made from a null pointer, nor from bytes never written.
unfoldable pub address_to_string : (AddressType → ℕ → List ℕ) → Address → Option (List ℕ)
address_to_string ntop a = elim a.type [
  | unset ↦ none
  | ipv4 ↦ a.addr >>= λ addr. some (ntop ipv4 addr)
  | ipv6 ↦ a.addr >>= λ addr. some (ntop ipv6 addr)
]

-- A port has at most 5 digits.
unfoldable pub to_string : (AddressType → ℕ → List ℕ) → Endpoint → Option (List ℕ)
unfolding address_to_string decimal
to_string ntop e = do str ← address_to_string ntop e.address; some (str ++ 58 ∷ decimal 5 e.port)
