-- ===== src/Automation/Allocator/Caps.antt =====
-- What src/automation/allocator.rs lets through.
use stocks.Base.{
  ◌≡◌, refl, ◌↔◌, true, false, List, [], Option, none, some, arith, flatten, flatten-eq-nil,
  is_empty_iff, All,
}
use stocks.Float.{F64, IsIeee, nought, micro}
use stocks.Reasons.Laws.{sort_dedup-eq-nil, when-eq-nil}
use stocks.Automation.Allocator.{
  AllocationLimits, AllocationRequest, SleeveAllocation, cap_exceeded, cap_usd, own, notional_of,
  symbol_total, sleeve_notional, replaced, status_blockers, pushed, evaluate_allocation,
}

-- The request with another target.
abbrev pub with_target : {F : Type 0} → AllocationRequest F → F → AllocationRequest F
with_target request target = record request { target_notional_usd = target }

module _ {F : Type 0} ⦃d : F64 F⦄ where
  pub allowed_iff :
      (request : AllocationRequest F) (sleeves : List (SleeveAllocation F))
      (limits : AllocationLimits F)
      → ((evaluate_allocation request sleeves limits).allowed ≡ true)
        ↔ All
            (λ xs. xs ≡ [])
            (pushed request sleeves limits (d.max request.target_notional_usd nought))
  unfolding evaluate_allocation
  allowed_iff request sleeves limits =
      let xss = pushed request sleeves limits (d.max request.target_notional_usd nought) in
      (
        λ h. (flatten-eq-nil xss).0 ((sort_dedup-eq-nil (flatten xss)).0 ((is_empty_iff _).0 h)),
        λ h. (is_empty_iff _).1 ((sort_dedup-eq-nil (flatten xss)).1 ((flatten-eq-nil xss).1 h)),
      )

module _ {F : Type 0} ⦃d : F64 F⦄ (ieee : IsIeee d) where
  cap_exceeded_mono :
      (x y current : F) (limit : Option F)
      → ((b : F) → d.lt b x ≡ true → d.lt b y ≡ true)
      → cap_exceeded y current limit ≡ false
      → cap_exceeded x current limit ≡ false
  unfolding cap_exceeded
  cap_exceeded_mono x y current none up h = refl
  cap_exceeded_mono x y current (some limit) up h =
      ground (arith, up (d.add limit micro), up (d.add current micro))

  status_blockers_mono :
      (o : Option (SleeveAllocation F)) (x y : F)
      → d.le x y ≡ true
      → status_blockers o y (d.le y (d.add (notional_of o) micro)) ≡ []
      → status_blockers o x (d.le x (d.add (notional_of o) micro)) ≡ []
  unfolding status_blockers
  status_blockers_mono none x y h e = refl
  status_blockers_mono (some s) x y h e =
      let room = d.add (sleeve_notional s) micro in
      ground (arith, ieee.le_trans x y room h, ieee.lt_of_lt_of_le micro x y)

  -- One cap on a total in which the request's own sleeve is replaced by its target.
  replaced_mono :
      (total own_now x y : F) (limit : Option F)
      → d.le x y ≡ true
      → cap_exceeded (replaced total own_now y) total limit ≡ false
      → cap_exceeded (replaced total own_now x) total limit ≡ false
  replaced_mono total own_now x y limit h =
      cap_exceeded_mono _ _ total limit
        (λ b e. ieee.lt_add_mono b (d.max (d.sub total own_now) nought) x y e h)

  fits_mono :
      (x y current : F) (limit : Option F)
      → d.le x y ≡ true
      → cap_exceeded y current limit ≡ false
      → cap_exceeded x current limit ≡ false
  fits_mono x y current limit h =
      cap_exceeded_mono x y current limit (λ b e. ieee.lt_of_lt_of_le b x y e h)

  -- Under IEEE comparison, a request that is allowed stays allowed when only its target is lowered,
  -- to any number that compares at most the former one, with the same sleeves and limits.
  pub evaluate_allocation-antitone :
      (request : AllocationRequest F) (sleeves : List (SleeveAllocation F))
      (limits : AllocationLimits F) (lower : F)
      → d.le lower request.target_notional_usd ≡ true
      → (evaluate_allocation request sleeves limits).allowed ≡ true
      → (evaluate_allocation (with_target request lower) sleeves limits).allowed ≡ true
  unfolding own symbol_total cap_usd
  evaluate_allocation-antitone request sleeves limits lower h e =
      let below = ieee.max_mono lower request.target_notional_usd nought h in
      let (status, (strategy, (symbol, (portfolio, _)))) =
        (allowed_iff request sleeves limits).0 e in
      (allowed_iff (with_target request lower) sleeves limits).1 (
        status_blockers_mono (own request sleeves) _ _ below status,
        (
          (when-eq-nil _ _).1 (fits_mono _ _ _ _ below ((when-eq-nil _ _).0 strategy)),
          (
            (when-eq-nil _ _).1 (replaced_mono _ _ _ _ _ below ((when-eq-nil _ _).0 symbol)),
            (
              (when-eq-nil _ _).1 (replaced_mono _ _ _ _ _ below ((when-eq-nil _ _).0 portfolio)),
              tt,
            ),
          ),
        ),
      )
