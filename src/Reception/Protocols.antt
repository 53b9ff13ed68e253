-- ===== src/Reception/Protocols.antt =====
-- The protocol as one invariant of the system: it holds at the start, and every step keeps it.
use restaurante_so.Prelude.{
  ℕ, ◌+◌, ◌≤◌, ◌<◌, ◌≡◌, ◌≢◌, inl, inr, update, update_elim, le-total, two-le-total, arith,
}
use restaurante_so.Setup.{Config, set_up}
use restaurante_so.Semaphore.{Shared, next, receptionist_req}
use restaurante_so.Group.{GroupPc, group_step}
use restaurante_so.Receptionist.{Receptionist, ReceptionistPc, receptionist_step}
use restaurante_so.System.{
  System, launch, Step, group_moves, receptionist_moves, waiter_moves, chef_moves, Reach, start,
  later,
}
use restaurante_so.Tokens.{
  group_reception, receptionist_reception, Balance, Step-Balance, launch-Balance, after_next,
}
use restaurante_so.Reception.View.{phase, Desk, desk_view, listening}
use restaurante_so.Reception.GroupKeeps.{Clear, posts, Alike-Desk, Apart, group_own, group_other}
use restaurante_so.Reception.ServantKeeps.{SameDesk, SameDesk-view, waiter_keeps, chef_keeps}
use restaurante_so.Reception.DeskKeeps.{receptionist_at_keeps}
use restaurante_so.Reception.Places.{
  GroupKnows, ReceptionistKnows, MailKnows, hands_at, group_learns, group-Mails,
}
use restaurante_so.Reception.PlacesOfDesk.{IsReady-of_Desk, receptionist-Learns}

pub record Protocol (n : ℕ) (s : System) : Type 0 where
  pub balance : Balance n s
  pub desk : (g : ℕ) → g < n → Desk (phase (s.groups g)) (desk_view g s.shared s.receptionist)
  pub group_knows : (g : ℕ) → g < n → GroupKnows (s.groups g)
  pub mail : MailKnows n s.shared s.receptionist.pc
  pub knows : ReceptionistKnows n s.receptionist.pc

listening-le : (p : ReceptionistPc) → listening p ≤ receptionist_reception p
listening-le p = ground arith

posts-le : (p : GroupPc) → posts (phase p) ≤ group_reception p
posts-le p = ground arith

module _ {n : ℕ} {s : System} (i : Protocol n s) where
  open i use {balance, desk, group_knows, mail, knows}

  reception_free : s.shared.sems receptionist_req + receptionist_reception s.receptionist.pc ≤ 1
  reception_free = omega (arith, balance.reception)

  clear : (g : ℕ) → g < n → Clear (s.groups g) s.shared s.receptionist
  clear g lt = record {
    region = omega (arith, balance.region);
    reception = omega (
      arith,
      balance.reception,
      le-total group_reception n s.groups g lt,
      listening-le s.receptionist.pc,
    );
  }

  apart :
      (j g : ℕ) (other : j ≢ g)
      → j < n
      → g < n
      → Apart j g other (phase (s.groups j)) s.receptionist (s.groups g) s.shared
  apart j g other lj lg = record {
    clear = clear g lg;
    one = elim (two-le-total group_reception n s.groups j g lj lg) [
      | inl same ↦ absurd (other same)
      | inr both ↦ omega (arith, balance.reception, posts-le (s.groups j))
    ];
    posted = desk g lg;
  }

  -- A step of group `g`, for each group `j`.
  module _ (g : ℕ) {sh : Shared} {p : GroupPc} (lt : g < n)
      (moves : group_step g (s.groups g) s.shared ≡ next sh p) where
    group_keeps_Desk :
        (j : ℕ) → j < n → Desk (phase (update s.groups g p j)) (desk_view j sh s.receptionist)
    group_keeps_Desk j lj =
        update_elim (λ k q. Desk (phase q) (desk_view k sh s.receptionist)) s.groups g p j
          (after_next _ _
            (group_own g s.receptionist (s.groups g) s.shared (clear g lt) (desk g lt)) moves)
          λ other.
            Alike-Desk (phase (s.groups j))
              (after_next _ _
                (group_other j g other (phase (s.groups j)) s.receptionist (s.groups g) s.shared
                  (apart j g other lj lt))
                moves)
              (desk j lj)

    group_keeps_knowledge : (j : ℕ) → j < n → GroupKnows (update s.groups g p j)
    group_keeps_knowledge j lj =
        update_elim (λ _ q. GroupKnows q) s.groups g p j
          (after_next _ _
            (group_learns g (s.groups g) s.shared s.receptionist (group_knows g lt) (desk g lt))
            moves)
          λ _. group_knows j lj

    group_keeps_mail : MailKnows n sh s.receptionist.pc
    group_keeps_mail =
        after_next _ _
          (group-Mails n g lt s.receptionist (s.groups g) s.shared (clear g lt) (desk g lt) mail)
          moves

  -- A step of the receptionist.
  receptionist_keeps_Desk :
      {sh : Shared} {r : Receptionist}
      → receptionist_step s.receptionist s.shared ≡ next sh r
      → (j : ℕ) → j < n
      → Desk (phase (s.groups j)) (desk_view j sh r)
  unfolding receptionist_step
  receptionist_keeps_Desk moves j lj =
      after_next _ _
        (receptionist_at_keeps j (phase (s.groups j)) s.receptionist.pc s.receptionist s.shared
          reception_free (hands_at n s.receptionist.pc knows) (desk j lj))
        moves

  receptionist_keeps_places :
      {sh : Shared} {r : Receptionist}
      → receptionist_step s.receptionist s.shared ≡ next sh r
      → MailKnows n sh r.pc × ReceptionistKnows n r.pc
  unfolding receptionist_step
  receptionist_keeps_places moves =
      after_next _ _
        (receptionist-Learns n s.receptionist s.receptionist.pc s.shared balance.same_groups
          reception_free mail knows
          (IsReady-of_Desk n s.receptionist.pc s.shared s.receptionist (λ g. phase (s.groups g))
            knows desk))
        moves

  -- A step of the waiter or of the chef.
  servant_keeps_Desk :
      {sh : Shared}
      → SameDesk s.shared sh
      → (j : ℕ) → j < n
      → Desk (phase (s.groups j)) (desk_view j sh s.receptionist)
  servant_keeps_Desk same j lj = rw (SameDesk-view j s.receptionist same) (desk j lj)

  servant_keeps_mail : {sh : Shared} → SameDesk s.shared sh → MailKnows n sh s.receptionist.pc
  servant_keeps_mail same = rw (same.requests, same.signal) mail

pub Step-Protocol : {n : ℕ} {s t : System} → Protocol n s → Step s t → Protocol n t
Step-Protocol {n} {s} i (group_moves g lt moves) = record {
  balance = Step-Balance i.balance (group_moves g lt moves);
  desk = group_keeps_Desk i g lt' moves;
  group_knows = group_keeps_knowledge i g lt' moves;
  mail = group_keeps_mail i g lt' moves;
  knows = i.knows;
}
  where
    lt' : g < n
    lt' = omega (arith, i.balance.same_groups)
Step-Protocol i (receptionist_moves moves) = record {
  balance = Step-Balance i.balance (receptionist_moves moves);
  desk = receptionist_keeps_Desk i moves;
  group_knows = i.group_knows;
  mail = (receptionist_keeps_places i moves).0;
  knows = (receptionist_keeps_places i moves).1;
}
Step-Protocol {s} i (waiter_moves moves) =
    let same = after_next _ _ (waiter_keeps s.waiter s.shared) moves in
    record {
      balance = Step-Balance i.balance (waiter_moves moves);
      desk = servant_keeps_Desk i same;
      group_knows = i.group_knows;
      mail = servant_keeps_mail i same;
      knows = i.knows;
    }
Step-Protocol {s} i (chef_moves moves) =
    let same = after_next _ _ (chef_keeps s.chef s.shared) moves in
    record {
      balance = Step-Balance i.balance (chef_moves moves);
      desk = servant_keeps_Desk i same;
      group_knows = i.group_knows;
      mail = servant_keeps_mail i same;
      knows = i.knows;
    }

pub launch-Protocol :
    (c : Config) {sh : Shared} → set_up c ≡ next sh tt → Protocol c.n_groups (launch sh)
unfolding set_up launch
launch-Protocol c e = record {
  balance = launch-Balance c e;
  desk = λ g lt. ground arith;
  group_knows = λ g lt. tt;
  mail = λ h. ground arith;
  knows = tt;
}

pub Reach-Protocol : {c : Config} {k : ℕ} {s : System} → Reach c k s → Protocol c.n_groups s
Reach-Protocol {c} (start e) = launch-Protocol c e
Reach-Protocol (later r st) = Step-Protocol (Reach-Protocol r) st
