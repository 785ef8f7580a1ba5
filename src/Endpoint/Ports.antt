-- ===== src/Endpoint/Ports.antt =====
-- What an `Endpoint` of src/endpoint.cpp keeps of the address and the port that it is given.
use smart_routine.Prelude.{ℕ, ◌/◌, ◌%◌, ◌<◌, ◌≡◌, ◌≢◌, refl, Option, some, arith}
use smart_routine.Endpoint.{
  Address, ipv4, SockAddr, Endpoint, htons, copy_addr, convert_to_sockaddr_in, new, to_sockaddr_in,
  from_sockaddr,
}

-- The peer's endpoint has its port in the wrong byte order: for an IPv4 endpoint and any endpoint
-- that takes over its socket address, as accept does, the address comes over, the port is the
-- byte-swapped one, which is the port itself only if its two bytes are equal, and the socket
-- address kept for later calls is still the old one.
pub from_sockaddr-swaps :
    (before : SockAddr) (addr : Option ℕ) (port : ℕ) (peer : Endpoint)
    → port < 65536
    → let a : Address = record { addr = addr; type = ipv4 } in
      (e : Endpoint) × (sa : SockAddr) × (new before a port ≡ some e)
      × (to_sockaddr_in e ≡ some sa)
      × ((from_sockaddr sa peer).address ≡ a)
      × ((from_sockaddr sa peer).port ≡ htons port)
      × (htons (htons port) ≡ port)
      × (port % 256 ≢ port / 256 → htons port ≢ port)
      × ((from_sockaddr sa peer).sockaddr ≡ peer.sockaddr)
unfolding new convert_to_sockaddr_in copy_addr to_sockaddr_in from_sockaddr htons
from_sockaddr-swaps before addr port peer small = (
  record {
    sockaddr = record { family = 2; port = htons port; addr = addr };
    address = record { addr = addr; type = ipv4 };
    port = port;
  },
  record { family = 2; port = htons port; addr = addr },
  refl,
  refl,
  refl,
  refl,
  omega arith,
  λ ne e. ne (omega arith),
  refl,
)
