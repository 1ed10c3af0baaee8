-- ===== src/Lib.antt =====
-- usbvfiod shares USB devices with virtual machines: it emulates a PCI USB controller (xHCI) in user
-- space. This library models the parts of it that decide what a guest sees, and proves what they do.
--
-- The program's parts and the files that model them:
--   * Interval.antt: src/device/interval.rs, intervals of addresses (`Range`, `intersection`,
--     `contains_interval`, `overlaps`); their laws are in Interval/Laws.antt.
--   * Bus.antt: src/device/bus.rs. Bus/Request.antt has `RequestSize` and `Request`, Bus/Device.antt
--     the trait `BusDevice` as a record of operations with its default loops and `DefaultDevice`,
--     Bus/Routing.antt the struct `Bus` with `add`, `to_device_request`, `read` and `write`, and
--     Bus/Bulk.antt `BulkRequestIterator` with `read_bulk` and `write_bulk` of the bus. All parts below
--     reach guest memory through such a bus. Bus/Validity.antt has the invariant, Bus/Dispatch.antt the
--     routing of a request, Bus/Coverage.antt the iterator, Bus/BulkAccess.antt (with Bus/BulkLoops.antt)
--     the bulk accesses.
--   * RegisterSet.antt: src/device/register_set.rs, registers with writable and write-one-to-clear bits:
--     `write`, `write_direct`, `read` and `fold_iter_le`. RegisterSet/Writes.antt and
--     RegisterSet/ReadBack.antt prove what they do. RegisterSet/Builder.antt has the builder, with one
--     function for the three widths above a byte; RegisterSet/Building.antt and RegisterSet/Guests.antt
--     prove what a built set holds and what a guest sees of it.
--   * Trb.antt: src/device/xhci/trb.rs, the blocks of 16 bytes that driver and controller exchange, and
--     the block types of src/device/pci/constants.rs (Trb/TrbTypes.antt). Trb/Event.antt lays events out
--     (`EventTrb::to_bytes`), Trb/Command.antt, Trb/Transfer.antt and Trb/Link.antt parse what a driver
--     lays out. Trb/EventView.antt is a driver's reading of an event, Trb/CommandParsing.antt,
--     Trb/TransferParsing.antt and Trb/LinkParsing.antt a driver's layout, both from the xHCI
--     specification.
--   * LinkedRing.antt: src/device/xhci/linked_ring.rs, the rings that the controller reads: `next_trb`
--     with its links, `advance` and the dequeue pointer. LinkedRing/Walk.antt has the walk over the
--     links as a relation, LinkedRing/Freshness.antt what a caller relies on.
--   * EventRing.antt: src/device/xhci/event_ring.rs, the ring that the controller writes: `configure`,
--     `enqueue` and the step to the next slot or segment. EventRing/Segments.antt has the slots in their
--     order, EventRing/Slots.antt the operations on a slot, EventRing/Laps.antt many events in a row.
--   * SlotManager.antt: src/device/xhci/slot_manager.rs, the slots for attached devices, and the index of
--     src/one_indexed_array/mod.rs. SlotManager/Slot.antt and SlotManager/Handlers.antt have `Slot` with
--     the handlers of Address Device, Configure Endpoint, Reset Device and Evaluate Context. The tasks
--     that serve endpoints are the interface `Workers`. SlotManager/StateDiagram.antt has the states of a
--     slot and the steps between them, SlotManager/Transitions.antt (with SlotManager/Endpoints.antt and
--     SlotManager/Returns.antt) that the handlers take these steps, and SlotManager/Responses.antt (with
--     SlotManager/Endings.antt) that they return. SlotManager/Table.antt has the table of slots with
--     `allocate_slot`, and SlotManager/Allocation.antt which slot that gives out. SlotManager/Worker.antt
--     has the messages of the worker, SlotManager/Resetting.antt what a reset does and what it leaves.
--   * Endpoint.antt: src/device/xhci/endpoint.rs, the worker of an endpoint, and `EndpointContext` of
--     src/device/xhci/slot_manager.rs (Endpoint/Context.antt). Endpoint/Worker.antt has `launch` and the
--     rounds of `run_loop`, with one function for each state; the real endpoint is the interface
--     `RealEndpoint`. Endpoint/Runs.antt has runs of rounds, Endpoint/Memory.antt what the worker needs of
--     guest memory, Endpoint/Agreement.antt (with Endpoint/Rounds.antt) the context that the guest sees,
--     Endpoint/Diagram.antt the state diagram, Endpoint/Answering.antt, Endpoint/Replies.antt and
--     Endpoint/Progress.antt the answers.
--   * CommandRing.antt: src/device/xhci/command_ring.rs. CommandRing/Register.antt has CRCR and the
--     doorbell, CommandRing/Worker.antt the rounds of the worker; the slot worker is the interface
--     `Slots`, which CommandRing/Handle.antt (`SlotWorkerHandle` of src/device/xhci/slot_manager.rs)
--     fills with the modelled one; there, what an endpoint answers that a call is passed on to is a
--     parameter, and messages of others that wait in front of a call are left out.
--     CommandRing/Completion.antt is about the completion of commands, CommandRing/Control.antt about
--     starting, stopping and resetting.
--   * Handover.antt: src/shared_backend.rs, the ownership of the device among connected virtual machines,
--     and `validate_irq_request` of src/xhci_backend.rs. Handover/Policy.antt has the start and the
--     configuration, Handover/Preflight.antt what a candidate has to pass, Handover/Control.antt the
--     commands of the control socket, and Handover/Connection.antt what a connection asks for and its end.
--     The controller is the interface `Backend`. Handover/Validity.antt has the invariant,
--     Handover/Changes.antt, Handover/Commands.antt and Handover/Steps.antt that it is kept, and
--     Handover/Runs.antt runs of calls. Handover/Commit.antt is about the answers to a commit, and
--     Handover/Stale.antt about connections that are not the owner.
--   * Registers.antt: src/device/xhci/registers.rs. Registers/Portsc.antt has PORTSC, and
--     Registers/Operational.antt the others. Registers/Changes.antt is about what a guest changes in
--     PORTSC, Registers/Resets.antt about HCRST in USBCMD.
--   * Port.antt: src/device/xhci/port.rs, with the identifier and the speed of a device of
--     src/device/xhci/real_device.rs. Port/Array.antt has the ports with their registers and addresses,
--     Port/Worker.antt the worker that attaches and detaches devices. Port/Lists.antt and
--     Port/Searches.antt are about lists of ports, Port/Validity.antt about the invariant,
--     Port/Plugging.antt and Port/Runs.antt that it is kept, Port/Attaching.antt about the answers, and
--     Port/Addresses.antt about the addresses.
--   * Interrupter.antt: src/device/xhci/interrupter.rs. Interrupter/Worker.antt has the worker, which uses
--     EventRing, and Interrupter/Delivery.antt is about what it makes of events and interrupt lines.
--   * DynamicBus.antt: src/dynamic_bus.rs, mappings of memory that come and go, over Bus.
--     DynamicBus/Mapping.antt has the operations, DynamicBus/Remapping.antt (with
--     DynamicBus/Building.antt) what they leave.
--   * Prelude.antt and its children: lists, tests on numbers, bits, bytes, and the monad of code that
--     may panic. A file Tests.antt in each part runs it at concrete values.
--
-- Conventions. A machine integer is a natural number with its bound or its wrap-around written out.
-- Devices share one state, whose type is a parameter; a method of a device takes it and returns it, or
-- is `none`, which is a panic: a failed assertion, an index out of bounds, an `unwrap` of nothing, a
-- `todo!`, or an arithmetic overflow. The build has overflow checks only in its debug profile; the
-- release profile wraps there. Shared ownership (`Arc`) and locks are left out: one operation runs after
-- another. Where code keeps a reference to the bus of guest memory, that bus is a parameter (`dma`), and
-- what a theorem needs of the memory behind it is a hypothesis: `Reads` for a ring that is read and
-- `Holds` for one that is written.
--
-- Fuel. `Bus.Bulk.collect` runs the iterator of a bulk request on one unit for each byte and one for the
-- end, which is enough, as a chunk has a byte at least. The loop of `next_trb` counts its 256 links down.
--
-- Instants of a hand-over are numbers, and each call gets its reading of the clock as an argument.
--
-- Not modelled: the handles of endpoints (src/device/xhci/endpoint_handle.rs and those beside it), the
-- order of a reset of the controller (src/device/xhci/controller_reset.rs), the PCI configuration space
-- (src/device/pci), the hot-plug protocol (src/hotplug_protocol) and memory segments
-- (src/memory_segment.rs). Not modelled at all: logging, texts of errors, sockets, the async runtime,
-- packet capture and the access to real USB devices.
pub mod Prelude
pub mod Handover
pub mod Interval
pub mod Interrupter
pub mod Bus
pub mod RegisterSet
pub mod Registers
pub mod Port
pub mod Trb
pub mod LinkedRing
pub mod CommandRing
pub mod Endpoint
pub mod DynamicBus
pub mod EventRing
pub mod SlotManager
