-- ===== src/Rates/Pending.antt =====
-- What a recalculation may change
-- (src/modules/commissions/commission-rates.service.ts): the price of PENDING commissions.
use deptoflex_back.Prelude.{
  Bool-cases, Forall₂, List, Option, [], arith, false, inl, inr, none, refl, some, ℕ, ◌===◌, ◌∙◌,
  ◌∷◌, ◌≡◌,
}
use deptoflex_back.Rates.Recalculate.{
  flex_booking_of, is_pending_of, pending_flex_bookings, pending_temporal_bookings,
  recalculate_all_pending, recalculate_booking_commission, recalculate_each, recalculate_flex,
  recalculate_temporal, recalculate_temporal_booking_commission, reprice, reprice_booking,
}
use deptoflex_back.Store.{
  Booking, Commission, CommissionStatus, Db, Env, FlexBooking, commission_status_enum,
}
use deptoflex_back.Prelude.Table.Laws.{Forall₂-update_many}

-- A commission before and after: one that is not PENDING is the same, and one that is keeps all but
-- its rate and its amounts.
pub record Reprices (c d : Commission) : Type 0 where
  pub settled_same : (c.status === CommissionStatus.pending) ≡ false → d ≡ c
  pub same_but_price : d ≡ record c {
    rate = d.rate;
    base_amount = d.base_amount;
    commission_amount = d.commission_amount;
  }

Reprices-refl : (c : Commission) → Reprices c c
Reprices-refl c = record { settled_same = λ _. refl; same_but_price = refl }

Reprices-trans : (c d e : Commission) → Reprices c d → Reprices d e → Reprices c e
Reprices-trans c d e h k = record {
  settled_same = λ n. k.settled_same (rw (h.settled_same n) n) ∙ h.settled_same n;
  same_but_price = k.same_but_price ∙ rw (h.same_but_price) refl;
}

Reprices-all_refl : (cs : List Commission) → Forall₂ Reprices cs cs
Reprices-all_refl [] = tt
Reprices-all_refl (c ∷ cs) = (Reprices-refl c, Reprices-all_refl cs)

Reprices-all_trans :
    (cs ds es : List Commission)
    → Forall₂ Reprices cs ds
    → Forall₂ Reprices ds es
    → Forall₂ Reprices cs es
Reprices-all_trans [] [] [] h k = tt
Reprices-all_trans [] [] (e ∷ es) h k = k
Reprices-all_trans [] (d ∷ ds) es h k = absurd h
Reprices-all_trans (c ∷ cs) [] es h k = absurd h
Reprices-all_trans (c ∷ cs) (d ∷ ds) [] h k = k
Reprices-all_trans (c ∷ cs) (d ∷ ds) (e ∷ es) h k =
    (Reprices-trans c d e h.0 k.0, Reprices-all_trans cs ds es h.1 k.1)

reprice_booking-Reprices :
    (env : Env) (id rate amount : ℕ) (s : Db)
    → Forall₂ Reprices s.commissions (reprice_booking env id rate amount s).commissions
unfolding is_pending_of reprice
reprice_booking-Reprices env id rate amount s =
    Forall₂-update_many Reprices (is_pending_of id) (reprice env rate amount) s.commissions λ c.
      elim (Bool-cases (is_pending_of id c)) [
        | inl t ↦ rw t (record { settled_same = λ n. ground (arith, n, t); same_but_price = refl })
        | inr f ↦ rw f (Reprices-refl c)
      ]

-- What each round of a recalculation, and so the recalculation, does to the commissions.
abbrev RepricesAll : (Db → Db) → Type 0
RepricesAll f = (s : Db) → Forall₂ Reprices s.commissions (f s).commissions

recalculate_each-Reprices :
    (f : Booking → Db → Db)
    → ((b : Booking) → RepricesAll (f b))
    → (bs : List Booking) → RepricesAll (recalculate_each f bs)
unfolding recalculate_each
recalculate_each-Reprices f h [] s = Reprices-all_refl s.commissions
recalculate_each-Reprices f h (b ∷ bs) s =
    Reprices-all_trans s.commissions (f b s).commissions _ (h b s)
      (recalculate_each-Reprices f h bs (f b s))

recalculate_flex-Reprices :
    (env : Env) (b : Booking) (p : Option ℕ) (o : Option FlexBooking)
    → RepricesAll (recalculate_flex env b p o)
recalculate_flex-Reprices env b none o s = Reprices-all_refl s.commissions
recalculate_flex-Reprices env b (some p) none s = Reprices-all_refl s.commissions
recalculate_flex-Reprices env b (some p) (some o) s =
    reprice_booking-Reprices env b.id _ o.monthly_amount s

booking-Reprices : (env : Env) (b : Booking) → RepricesAll (recalculate_booking_commission env b)
unfolding recalculate_booking_commission
booking-Reprices env b s =
    recalculate_flex-Reprices env b b.property_flex_id (flex_booking_of s b) s

recalculate_temporal-Reprices :
    (env : Env) (b : Booking) (p : Option ℕ) → RepricesAll (recalculate_temporal env b p)
recalculate_temporal-Reprices env b none s = Reprices-all_refl s.commissions
recalculate_temporal-Reprices env b (some p) s =
    reprice_booking-Reprices env b.id _ b.total_amount s

temporal-Reprices :
    (env : Env) (b : Booking) → RepricesAll (recalculate_temporal_booking_commission env b)
unfolding recalculate_temporal_booking_commission
temporal-Reprices env b s = recalculate_temporal-Reprices env b b.property_id s

-- A recalculation of all pending commissions neither adds, removes nor reorders commissions, leaves
-- those that are not PENDING as they are, and changes of the others only the rate and the amounts.
pub recalculate_all_pending-Reprices :
    (env : Env) (s : Db)
    → Forall₂ Reprices s.commissions (recalculate_all_pending env s).1.commissions
unfolding recalculate_all_pending
recalculate_all_pending-Reprices env s =
    let fs = pending_flex_bookings s none none in
    let ts = pending_temporal_bookings s none none in
    let s' = recalculate_each (recalculate_booking_commission env) fs s in
    Reprices-all_trans s.commissions s'.commissions _
      (recalculate_each-Reprices _ (booking-Reprices env) fs s)
      (recalculate_each-Reprices _ (temporal-Reprices env) ts s')
