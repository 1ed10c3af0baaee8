-- ===== src/Port/Addresses.antt =====
-- The addresses of the registers of ports in src/device/xhci/port.rs.
use usbvfiod.Prelude.{
  ℕ, ◌+◌, ◌-◌, ◌*◌, ◌/◌, ◌%◌, ◌≤◌, ◌<◌, ◌==◌, ◌≡◌, ◌↔◌, leb, ltb, ◌&&◌, some, arith, Bool-cases,
  inl, inr, subst, sym,
}
use usbvfiod.Port.Array.{
  max_ports, port_stride, portsc_offset, get_port_id_from_addr, get_portsc_id, get_portpmsc_id,
  get_portli_id,
}

-- The address of a register of a port.
abbrev pub register_address : ℕ → ℕ → ℕ
register_address port_id register_offset =
    portsc_offset + (port_id - 1) * port_stride + register_offset

found :
    (addr offset port_id : ℕ)
    → get_port_id_from_addr addr portsc_offset max_ports offset ≡ some port_id
    → (1 ≤ port_id) × (port_id ≤ max_ports) × (addr ≡ register_address port_id offset)
unfolding get_port_id_from_addr
found addr offset port_id h =
    elim (Bool-cases
      (leb portsc_offset addr && ltb addr (portsc_offset + max_ports * port_stride))) [
        | inr outside ↦ absurd (cc (rw outside at h))
        | inl inside ↦ elim (Bool-cases ((addr - portsc_offset) % port_stride == offset)) [
          | inr other ↦ absurd (cc (rw (inside, other) at h))
          | inl same ↦
              let e : some ((addr - portsc_offset) / port_stride + 1) ≡ some port_id =
                rw (inside, same) at h in
              let k : (addr - portsc_offset) / port_stride + 1 ≡ port_id = cc in
              (omega arith, ground arith, ground arith)
        ]
      ]

finds :
    (offset port_id : ℕ)
    → offset < port_stride
    → 1 ≤ port_id
    → port_id ≤ max_ports
    → get_port_id_from_addr (register_address port_id offset) portsc_offset max_ports offset
      ≡ some port_id
unfolding get_port_id_from_addr
finds offset port_id h lo hi = ground arith

-- A number is that of a port with a register at an address.
abbrev pub PortAt : ℕ → ℕ → ℕ → Type 0
PortAt addr offset port_id =
    (1 ≤ port_id) × (port_id ≤ max_ports) × (addr ≡ register_address port_id offset)

found_iff :
    (addr offset port_id : ℕ)
    → offset < port_stride
    → (get_port_id_from_addr addr portsc_offset max_ports offset ≡ some port_id)
      ↔ PortAt addr offset port_id
found_iff addr offset port_id h = (
  found addr offset port_id,
  λ (lo, hi, e).
      subst (λ a. get_port_id_from_addr a portsc_offset max_ports offset ≡ some port_id) (sym e)
        (finds offset port_id h lo hi),
)

-- `get_portsc_id`, `get_portpmsc_id` and `get_portli_id` find the ports from 1 to 8 at the addresses of
-- their registers PORTSC, PORTPMSC and PORTLI, and none elsewhere.
pub get_ids_iff :
    (addr port_id : ℕ)
    → ((get_portsc_id addr ≡ some port_id) ↔ PortAt addr 0 port_id)
      × ((get_portpmsc_id addr ≡ some port_id) ↔ PortAt addr 4 port_id)
      × ((get_portli_id addr ≡ some port_id) ↔ PortAt addr 8 port_id)
unfolding get_portsc_id get_portpmsc_id get_portli_id
get_ids_iff addr port_id = (
  found_iff addr 0 port_id (omega arith),
  found_iff addr 4 port_id (omega arith),
  found_iff addr 8 port_id (omega arith),
)
