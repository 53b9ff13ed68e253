-- ===== src/Service/Protocols.antt =====
-- The orders of all groups as one invariant of the system, and that each kind of step keeps it.
use restaurante_so.Prelude.{
  ℕ, ◌≤◌, ◌<◌, ◌≡◌, ◌≢◌, inl, inr, update, update_elim, le-total, two-le-total, arith,
}
use restaurante_so.Semaphore.{Shared, next}
use restaurante_so.Group.{GroupPc, group_step}
use restaurante_so.Receptionist.Seating.Decisions.{IsFree}
use restaurante_so.Waiter.{WaiterPc}
use restaurante_so.Chef.{ChefPc}
use restaurante_so.System.{System}
use restaurante_so.Tokens.{group_service, waiter_service, chef_order, after_next}
use restaurante_so.Reception.{Protocol}
use restaurante_so.Seats.{Booked}
use restaurante_so.Service.View.{
  Want, nothing, asking, want, Serve, serve_view, hearing, reading, IsApart,
}
use restaurante_so.Service.GroupKeeps.{
  Carries, OneRequest, Alike-Serve, posts, Apart, group_own, group_other,
}
use restaurante_so.Service.WaiterKeeps.{WaiterCarries}
use restaurante_so.Service.ChefKeeps.{ChefPosts}
use restaurante_so.Service.Places.{
  MailKnows, WaiterKnows, OrderKnows, ChefKnows, IsBare, group_leaves, group-Carries,
  group-LeavesPost, group-Mails,
}
use restaurante_so.Service.Transfers.{IsApart-of, Carries-stays, WaiterCarries-stays}

pub record Service (n : ℕ) (s : System) : Type 0 where
  pub serve : (g : ℕ) → g < n → Serve (want (s.groups g)) (serve_view g s.shared s.waiter.pc s.chef)
  pub carries : (g : ℕ) → g < n → Carries (s.groups g) s.shared g
  pub waiter_carries : WaiterCarries s.waiter.pc s.shared
  pub chef_posts : ChefPosts s.chef.pc s.chef.last_group s.shared
  pub bare : (t : ℕ) → IsFree s.shared.f_st.assigned_table n t → IsBare s.shared t
  pub mail : MailKnows n s.shared s.waiter.pc
  pub waiter_knows : WaiterKnows n s.waiter.pc
  pub order_knows : OrderKnows n s.shared s.chef.pc
  pub chef_knows : ChefKnows n s.chef

pub hearing-le : (p : WaiterPc) → hearing p ≤ waiter_service p
hearing-le p = ground arith

pub reading-le : (p : ChefPc) → reading p ≤ chef_order p
reading-le p = ground arith

pub posts-le : (p : GroupPc) → posts (want p) ≤ group_service p
posts-le p = ground arith

pub ne_asking : (q : Want) → posts q ≡ 0 → q ≢ asking
ne_asking asking e = absurd (omega arith)
ne_asking nothing e = λ x. cc
ne_asking _ e = λ x. cc

module _ {n : ℕ} {s : System} (i : Protocol n s) (b : Booked n s) (v : Service n s) where
  open i use {balance}

  pub one_request : (g : ℕ) → g < n → OneRequest (s.groups g) s.shared s.waiter.pc
  one_request g lt =
      omega (arith, balance.service, le-total group_service n s.groups g lt, hearing-le s.waiter.pc)

  pub IsApart-tables :
      (j g : ℕ)
      → j ≢ g
      → j < n
      → g < n
      → IsApart (s.shared.f_st.assigned_table j) (s.shared.f_st.assigned_table g)
  IsApart-tables j g other lj lg = IsApart-of _ _ (λ t e f. other (b.exclusive j g t lj lg e f))

  apart :
      (j g : ℕ) (other : j ≢ g)
      → j < n
      → g < n
      → Apart j g other (want (s.groups j)) s.waiter.pc s.chef (s.groups g) s.shared
  apart j g other lj lg = record {
    clear = one_request g lg;
    one = elim (two-le-total group_service n s.groups j g lj lg) [
      | inl same ↦ absurd (other same)
      | inr both ↦ omega (arith, balance.service, posts-le (s.groups j))
    ];
    posted = v.serve g lg;
    carries = v.carries g lg;
    apart = IsApart-tables j g other lj lg;
  }

  -- A step of group `g`.
  module _ (g : ℕ) {sh : Shared} {p : GroupPc} (lt : g < n)
      (moves : group_step g (s.groups g) s.shared ≡ next sh p) where
    pub group_keeps_Service : Service n (record s { shared = sh; groups = update s.groups g p })
    group_keeps_Service =
        let left = after_next _ _ (group_leaves g (s.groups g) s.shared) moves in
        record {
          serve = λ j lj.
              update_elim (λ k q. Serve (want q) (serve_view k sh s.waiter.pc s.chef)) s.groups g p
                j
                (after_next _ _
                  (group_own g s.waiter.pc s.chef (s.groups g) s.shared (one_request g lt)
                    (v.carries g lt) (v.serve g lt))
                  moves)
                λ other.
                  Alike-Serve (want (s.groups j))
                    (after_next _ _
                      (group_other j g other (want (s.groups j)) s.waiter.pc s.chef (s.groups g)
                        s.shared (apart j g other lj lt))
                      moves)
                    (v.serve j lj);
          carries = λ j lj.
              update_elim (λ k q. Carries q sh k) s.groups g p j
                (after_next _ _ (group-Carries g (s.groups g) s.shared (v.carries g lt)) moves)
                λ other.
                  Carries-stays (s.groups j) j s.shared sh (inr (rw left.tables)) (v.carries j lj);
          waiter_carries =
              WaiterCarries-stays s.waiter.pc s.shared sh left.order (λ h e. rw left.tables)
                v.waiter_carries;
          chef_posts =
              after_next _ _
                (group-LeavesPost g s.chef.last_group s.chef.pc (s.groups g) s.shared
                  (omega (arith, balance.service, le-total group_service n s.groups g lt))
                  v.chef_posts)
                moves;
          bare = λ t free. left.bare t (v.bare t (rw left.tables at free));
          mail =
              after_next _ _
                (group-Mails n g lt s.waiter.pc s.chef (s.groups g) s.shared (one_request g lt)
                  (v.serve g lt) v.mail)
                moves;
          waiter_knows = v.waiter_knows;
          order_knows = rw (left.order, left.order_signal) v.order_knows;
          chef_knows = v.chef_knows;
        }
