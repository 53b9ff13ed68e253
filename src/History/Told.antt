-- ===== src/History/Told.antt =====
-- One step: what it writes to the log keeps the log right.
use restaurante_so.Prelude.{
  ℕ, ◌<◌, ◌≡◌, refl, sym, ◌∙◌, Option, none, some, inl, inr, ◌==◌, Bool-cases, false, arith,
}
use restaurante_so.Problem.{
  Stat, FullStat, leaving, cook, wait_for_order, wait_for_request, inform_chef, take_to_table,
  assign_table, recv_pay,
}
use restaurante_so.Setup.{Config}
use restaurante_so.Semaphore.{Shared}
use restaurante_so.Group.{GroupPc}
use restaurante_so.Receptionist.{
  ReceptionistPc, waiting_for_group, providing, receiving, WaitForGroupPc, ProvideTablePc,
  ReceivePaymentPc,
}
use restaurante_so.Waiter.{
  WaiterPc, waiting_for_request, informing, taking, WaitForRequestPc, InformChefPc, TakeFoodPc,
}
use restaurante_so.Chef.{ChefPc, waiting_for_order, processing, WaitForOrderPc, ProcessOrderPc}
use restaurante_so.History.Changes.{
  group_status, group_writes, group_change, receptionist_change, waiter_change, chef_change, Writes,
}
use restaurante_so.History.Rows.{
  Shows, chef_shows, waiter_shows, receptionist_shows, group_shows, InRange, InRange-Shows,
  SeatsRight, History, next_row,
}

-- The log of a state, whose last row shows the present statuses.
pub record Told (c : Config) (sh : Shared) : Type 0 where
  pub last : FullStat
  pub history : History c last sh.log
  pub current : last.st ≡ sh.f_st.st
  pub range : InRange c.n_groups sh.f_st.st

abbrev pub InStep : ℕ → Stat → (ℕ → GroupPc) → Type 0
InStep n st groups = (g : ℕ) → g < n → st.group_stat g ≡ group_status (groups g)

-- What a step writes is one status.
abbrev pub Every : (Stat → Type 0) → Option Stat → Type 0
Every P none = Unit
Every P (some new) = P new

writes_below : (p : GroupPc) → (group_writes p == 0) ≡ false → group_status p < leaving
writes_below p e = ground arith

pub group_change-Shows :
    {n : ℕ} (g : ℕ) (p : GroupPc) (st : Stat)
    → g < n
    → st.group_stat g ≡ group_status p
    → Every (Shows n st) (group_change g p st)
group_change-Shows g p st lt e = elim (Bool-cases (group_writes p == 0)) [
  | inl quiet ↦ rw quiet tt
  | inr writes ↦ rw (writes, ← e) (group_shows g lt (omega (arith, e, writes_below p writes)) refl)
]

pub receptionist_change-Shows :
    (n : ℕ) (p : ReceptionistPc) (st : Stat) → Every (Shows n st) (receptionist_change p st)
receptionist_change-Shows n (waiting_for_group WaitForGroupPc.write) st =
    receptionist_shows wait_for_request (omega arith) refl
receptionist_change-Shows n (waiting_for_group _) st = tt
receptionist_change-Shows n (providing g ProvideTablePc.write) st =
    receptionist_shows assign_table (omega arith) refl
receptionist_change-Shows n (providing g _) st = tt
receptionist_change-Shows n (receiving g ReceivePaymentPc.write) st =
    receptionist_shows recv_pay (omega arith) refl
receptionist_change-Shows n (receiving g _) st = tt
receptionist_change-Shows n _ st = tt

pub waiter_change-Shows :
    (n : ℕ) (p : WaiterPc) (st : Stat) → Every (Shows n st) (waiter_change p st)
waiter_change-Shows n (waiting_for_request WaitForRequestPc.write) st =
    waiter_shows wait_for_request (omega arith) refl
waiter_change-Shows n (waiting_for_request _) st = tt
waiter_change-Shows n (informing g InformChefPc.write) st =
    waiter_shows inform_chef (omega arith) refl
waiter_change-Shows n (informing g _) st = tt
waiter_change-Shows n (taking g TakeFoodPc.write) st = waiter_shows take_to_table (omega arith) refl
waiter_change-Shows n (taking g _) st = tt
waiter_change-Shows n _ st = tt

pub chef_change-Shows : (n : ℕ) (p : ChefPc) (st : Stat) → Every (Shows n st) (chef_change p st)
chef_change-Shows n (waiting_for_order WaitForOrderPc.write) st = chef_shows cook (omega arith) refl
chef_change-Shows n (waiting_for_order _) st = tt
chef_change-Shows n (processing ProcessOrderPc.write) st =
    chef_shows wait_for_order (omega arith) refl
chef_change-Shows n (processing _) st = tt
chef_change-Shows n _ st = tt

-- The staff write no group's status.
abbrev pub SameGroups : Stat → Stat → Type 0
SameGroups st new = new.group_stat ≡ st.group_stat

pub receptionist_change-SameGroups :
    (p : ReceptionistPc) (st : Stat) → Every (SameGroups st) (receptionist_change p st)
receptionist_change-SameGroups (waiting_for_group p) st = ground arith
receptionist_change-SameGroups (providing g p) st = ground arith
receptionist_change-SameGroups (receiving g p) st = ground arith
receptionist_change-SameGroups _ st = tt

pub waiter_change-SameGroups :
    (p : WaiterPc) (st : Stat) → Every (SameGroups st) (waiter_change p st)
waiter_change-SameGroups (waiting_for_request p) st = ground arith
waiter_change-SameGroups (informing g p) st = ground arith
waiter_change-SameGroups (taking g p) st = ground arith
waiter_change-SameGroups _ st = tt

pub chef_change-SameGroups : (p : ChefPc) (st : Stat) → Every (SameGroups st) (chef_change p st)
chef_change-SameGroups (waiting_for_order p) st = ground arith
chef_change-SameGroups (processing p) st = ground arith
chef_change-SameGroups _ st = tt

-- A step that writes at most one status keeps the log right.
pub Told-write :
    {c : Config} {sh sh' : Shared} (change : Option Stat)
    → sh.f_st.n_groups ≡ c.n_groups
    → SeatsRight c.n_groups sh.f_st.groups_waiting sh.f_st.assigned_table
    → Told c sh
    → Every (Shows c.n_groups sh.f_st.st) change
    → Writes change sh sh'
    → Told c sh'
Told-write none same seats a shows w = record {
  last = a.last;
  history = rw w.0 a.history;
  current = a.current ∙ sym w.1;
  range = rw w.1 a.range;
}
Told-write {c} {sh} (some new) same seats a shows w = record {
  last = record (sh.f_st) { st = new };
  history =
      next_row _ _ a.history (rw a.current shows)
        (record { same_groups = same; statuses = InRange-Shows a.range shows; seats = seats }) w.0;
  current = sym w.1;
  range = rw w.1 (InRange-Shows a.range shows);
}

pub InStep-write :
    (n : ℕ) (sh sh' : Shared) (groups : ℕ → GroupPc) (change : Option Stat)
    → InStep n sh.f_st.st groups
    → Every (SameGroups sh.f_st.st) change
    → Writes change sh sh'
    → InStep n sh'.f_st.st groups
InStep-write n sh sh' groups none a same w g lt = rw w.1 (a g lt)
InStep-write n sh sh' groups (some new) a same w g lt = rw w.1 (rw same (a g lt))
