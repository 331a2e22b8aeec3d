-- ===== src/Connect/Race/Delivery.antt =====
-- An event that is delivered keeps the invariant of Counts.
use rdma_on_asio.Base.{◌≡◌, inl, inr, refl, true, ◌&&◌, arith, Bool-cases}
use rdma_on_asio.Cm.{CmEvent, EventType, established}
use rdma_on_asio.Cm.Drain.{disconnects, established_acks}
use rdma_on_asio.Connect.{Stage}
use rdma_on_asio.Connect.Race.{
  armed, Machine, deliver_event, moved, ack_if_finished, begin_at, got, is_due, is_armed,
}
use rdma_on_asio.Connect.Race.Counts.{Inv}

begin-Inv :
    (s : Stage) (t : EventType) (e : CmEvent) (m : Machine)
    → e.event ≡ t
    → m.pc ≡ armed
    → is_due e s ≡ true
    → Inv m
    → Inv (moved m (ack_if_finished e (begin_at s e (got m.run))))
unfolding begin_at disconnects established_acks
begin-Inv Stage.addr_resolve established e m q p d v = record {
  balance = ground arith;
  untouched = ground arith;
  single = ground arith;
  up = ground arith;
  claimed = ground arith;
  held_fits = ground arith;
}
begin-Inv Stage.addr_resolve _ e m q p d v = record {
  balance = ground arith;
  untouched = ground arith;
  single = ground arith;
  up = ground arith;
  claimed = ground arith;
  held_fits = ground arith;
}
begin-Inv Stage.addr_route established e m q p d v = record {
  balance = ground arith;
  untouched = ground arith;
  single = ground arith;
  up = ground arith;
  claimed = ground arith;
  held_fits = ground arith;
}
begin-Inv Stage.addr_route _ e m q p d v = record {
  balance = ground arith;
  untouched = ground arith;
  single = ground arith;
  up = ground arith;
  claimed = ground arith;
  held_fits = ground arith;
}
begin-Inv Stage.connect established e m q p d v = record {
  balance = ground arith;
  untouched = ground arith;
  single = ground arith;
  up = ground arith;
  claimed = ground arith;
  held_fits = ground arith;
}
begin-Inv Stage.connect _ e m q p d v = record {
  balance = ground arith;
  untouched = ground arith;
  single = ground arith;
  up = ground arith;
  claimed = ground arith;
  held_fits = ground arith;
}
begin-Inv Stage.done established e m q p d v = record {
  balance = ground arith;
  untouched = ground arith;
  single = ground arith;
  up = ground arith;
  claimed = ground arith;
  held_fits = ground arith;
}
begin-Inv Stage.done _ e m q p d v = record {
  balance = ground arith;
  untouched = ground arith;
  single = ground arith;
  up = ground arith;
  claimed = ground arith;
  held_fits = ground arith;
}
begin-Inv Stage.error _ e m q p d v = record {
  balance = ground arith;
  untouched = ground arith;
  single = ground arith;
  up = ground arith;
  claimed = ground arith;
  held_fits = ground arith;
}

pub deliver-Inv : (e : CmEvent) (m : Machine) → Inv m → Inv (deliver_event e m)
unfolding deliver_event
deliver-Inv e m v = elim (Bool-cases (is_armed m.pc && is_due e m.run.op.stage)) [
  | inl y ↦ rw y (begin-Inv m.run.op.stage e.event e m refl (ground arith) (ground arith) v)
  | inr n ↦ rw n v
]
