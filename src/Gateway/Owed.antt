-- ===== src/Gateway/Owed.antt =====
-- The credits that a request of internal/gateway/images.go takes when the pool's accounts serve it.
use gpt2api.Prelude.{
  ℕ, zero, suc, ◌*◌, ◌≤◌, ◌<◌, ◌≡◌, refl, inl, inr, arith, String, Bool, true, false, ltb, ◌==◌,
  Bool-cases, if◌then◌else◌, List, length, some,
}
use gpt2api.Prelude.Int.{ℤ, pos, ltb_ℤ, ◌<ℤ◌, ◌≤ℤ◌, ◌+ℤ◌, InInt64, half_word}
use gpt2api.Db.Action.{Result, ok, err}
use gpt2api.Db.Table.{find}
use gpt2api.Db.Rows.{Database, User}
use gpt2api.Billing.Calm.{calm}
use gpt2api.ApiKey.{ApiKey}
use gpt2api.Pricing.{Model, resolve_image_unit_price}
use gpt2api.Pricing.Bounds.{cost-Converts, positive-Converts}
use gpt2api.Image.{StorageMode, Task, create_task}
use gpt2api.Image.Runner.{RunResult, Source, max, at_least_one}
use gpt2api.Image.Run.{World, run, on_tasks}
use gpt2api.Image.Bounded.{Bounded, BringsNoThumbs, Succeeds, run-Succeeds}
use gpt2api.Gateway.{
  Deps, Site, Usage, refused, served, ImageData, Verdict, lost, won, image_data_from,
  build_api_image_data, cost_of, image_response_accounting,
}
use gpt2api.Gateway.Charge.{Bill, Answer, charge}
use gpt2api.Gateway.Charged.{IsCharged, IsCovered, CostsWithin, charge-within}
use gpt2api.Gateway.Exact.{TakesExactly, charge-TakesExactly}
use gpt2api.Gateway.References.{with_task, after_archive, after_create, archive_task_references}
use gpt2api.Gateway.Generate.{
  after_run, counted, run_options, alone, write_cost, local_bill, attempt_local, generate_locally,
}

module _ {V Adapter : Type 0} (h : Deps V Adapter) where
  length-image_data_from :
      (count i : ℕ) (id : String) (mode : StorageMode) (urls thumbs files : List String)
      → length (image_data_from h count i id mode urls thumbs files) ≡ count
  unfolding image_data_from
  length-image_data_from zero i id mode urls thumbs files = refl
  length-image_data_from (suc count) i id mode urls thumbs files =
      omega (arith, length-image_data_from count (suc i) id mode urls thumbs files)

  -- As many entries as the longest of the lists has.
  length-build_api_image_data :
      (id : String) (mode : StorageMode) (urls thumbs files : List String)
      → length (build_api_image_data h id mode urls thumbs files)
        ≡ max (max (length urls) (length thumbs)) (length files)
  unfolding build_api_image_data
  length-build_api_image_data id mode urls thumbs files =
      length-image_data_from (max (max (length urls) (length thumbs)) (length files)) 0 id mode urls
        thumbs files

  build-few :
      (n : ℕ) (id : String) (mode : StorageMode) (r : RunResult)
      → Bounded n r
      → length (build_api_image_data h id mode r.signed_urls r.thumb_urls r.file_ids) ≤ n
  build-few n id mode r b =
      rw (length-build_api_image_data id mode r.signed_urls r.thumb_urls r.file_ids)
        (ground (arith, b.urls, b.thumbs, b.files))

module _ {V Adapter : Type 0} (h : Deps V Adapter) (m : Model) (ratio : ℤ) (size : String)
    (n : ℕ) where
  -- The actual cost is that of some of the images.
  abbrev pub CostsSome : {X : Type 0} → Verdict × X → Type 0
  CostsSome (lost account status code shown, w) = Unit {0}
  CostsSome (won account images count actual, w) =
      (1 ≤ count) × (count ≤ n) × (count ≡ length images) × (actual ≡ cost_of h m count ratio size)

  CostsSome-if :
      {X : Type 0} (b : Bool) (x y : Verdict × X)
      → CostsSome x
      → CostsSome y
      → CostsSome (if b then x else y)
  CostsSome-if true x y p q = p
  CostsSome-if false x y p q = q

  counted-CostsSome :
      (r : RunResult) (images : List ImageData) (w : World V)
      → length images ≤ n
      → CostsSome (counted h r images (image_response_accounting h m images ratio size) w)
  counted-CostsSome r images w few = elim (Bool-cases (ltb 0 (length images))) [
    | inl e ↦
        let many : (length images == 0) ≡ false = ground arith in
        rw (e, many) (ground arith, few, refl, refl)
    | inr e ↦ rw e tt
  ]

  after_run-CostsSome :
      (r : RunResult) (w : World V)
      → Succeeds n (r, w)
      → CostsSome (after_run h m ratio size (r, w))
  unfolding after_run
  after_run-CostsSome r w bounded = elim (Bool-cases r.is_success) [
    | inl e ↦ rw e (
        counted-CostsSome r
          (build_api_image_data h h.task_id r.storage_mode r.signed_urls r.thumb_urls r.file_ids) w
          (build-few h n h.task_id r.storage_mode r (bounded e)))
    | inr e ↦ rw e tt
  ]

  after_archive-CostsSome :
      {X : Type 0} (id : String) (lift : World V → X) (next : World V → Verdict × X)
      (r : Result (Unit {0}) × World V)
      → ((v : World V) → CostsSome (next v))
      → CostsSome (after_archive h.ports h.now id lift next r)
  after_archive-CostsSome id lift next (err e, v) later = tt
  after_archive-CostsSome id lift next (ok x, v) later = later v

  after_create-CostsSome :
      {X : Type 0} (t : Task) (refs : List Source) (lift : World V → X)
      (next : World V → Verdict × X) (r : Result (Unit {0}) × World V)
      → ((v : World V) → CostsSome (next v))
      → CostsSome (after_create h.ports h.now t refs lift next r)
  after_create-CostsSome t refs lift next (err e, v) later = tt
  after_create-CostsSome t refs lift next (ok x, v) later =
      after_archive-CostsSome t.task_id lift next
        (archive_task_references h.ports t.task_id t.storage_mode refs v) later

  with_task-CostsSome :
      {X : Type 0} (t : Task) (refs : List Source) (lift : World V → X)
      (next : World V → Verdict × X) (w : World V)
      → ((v : World V) → CostsSome (next v))
      → CostsSome (with_task h.ports h.now t refs lift next w)
  unfolding with_task
  with_task-CostsSome t refs lift next w later =
      after_create-CostsSome t refs lift next (on_tasks (create_task t) w) later

module _ {V Adapter : Type 0} (h : Deps V Adapter) (bare : BringsNoThumbs h.run_once) (m : Model)
    (ratio : ℤ) (size : String) (n : ℕ) (positive : 1 ≤ n) where
  attempt_local-CostsSome :
      (user_id key_id : ℕ) (cost : ℤ) (prompt : String) (refs : List Source) (w : World V)
      → CostsSome h m ratio size n
          (attempt_local h user_id key_id m ratio cost prompt n size refs w)
  unfolding attempt_local
  attempt_local-CostsSome user_id key_id cost prompt refs w =
      with_task-CostsSome h m ratio size n _ refs (λ v. v) _ w
        (λ v.
          let o = run_options h m prompt n size (length refs) in
          let (r, u) = run h.run_once h.ctx_done h.ports h.now o v in
          let same : at_least_one n ≡ n = ground arith in
          after_run-CostsSome h m ratio size n r u
            (rw same at (run-Succeeds h.run_once h.ctx_done h.ports bare h.now o v)))

module _ {V Adapter : Type 0} (h : Deps V Adapter) where
  write_cost-kept :
      (b : Bill) (d : Database) (x : Answer V)
      → IsCharged b d x × IsCovered b x
      → IsCharged b d (write_cost h x) × IsCovered b (write_cost h x)
  unfolding write_cost
  write_cost-kept b d ((refused status code, rec), w) p = ground (arith, p)
  write_cost-kept b d ((served id images, rec), w) p = ground (arith, p)

  verdict-CostsWithin :
      (b : Bill) (m : Model) (ratio : ℤ) (size : String) (n u : ℕ) (x : Verdict × World V)
      → b.cost ≡ cost_of h m n ratio size
      → resolve_image_unit_price h.lower h.trim h.split_x h.atoi m size ≡ pos u
      → 1 ≤ n
      → u * n < half_word
      → pos 0 <ℤ b.cost
      → CostsSome h m ratio size n x
      → (v : Site V) → CostsWithin b (x.0, record v { images = x.1 })
  verdict-CostsWithin b m ratio size n u (lost account status code shown, w) cost unit some_n small
        positive c v =
      tt
  verdict-CostsWithin b m ratio size n u (won account images count actual, w) cost unit some_n small
        positive (one, few, counts, same) v =
      rw (same, cost)
        (cost-Converts h.lower h.trim h.split_x h.atoi m ratio size u count n unit one few small (
          positive-Converts h.lower h.trim h.split_x h.atoi m ratio size u n unit some_n small
            (rw (← cost) positive)))

  -- Where no attempt brings thumbnails, one image or more are wanted, the unit price is not negative
  -- and its product with their number fits an int64, and what is reserved is positive and fits one too:
  -- a request that the pool serves takes the cost in its log, which is not negative and at most what was
  -- reserved; a request that is refused takes nothing; or else the whole reservation is still held.
  -- Nobody else's account or ledger changes.
  pub generate_locally-IsCharged :
      (key_id : ℕ) (ak : ApiKey) (m : Model) (ratio : ℤ) (prompt size : String) (n u : ℕ)
      (refs : List Source) (rec : Usage) (w : Site V)
      → BringsNoThumbs h.run_once
      → 1 ≤ n
      → resolve_image_unit_price h.lower h.trim h.split_x h.atoi m size ≡ pos u
      → u * n < half_word
      → pos 0 <ℤ cost_of h m n ratio size
      → InInt64 (cost_of h m n ratio size)
      → let b = local_bill h key_id ak (cost_of h m n ratio size) in
        let x = generate_locally h key_id ak m ratio prompt n size refs rec w in
        IsCharged b w.session.db x × IsCovered b x
  unfolding generate_locally
  generate_locally-IsCharged key_id ak m ratio prompt size n u refs rec w bare some_n unit small
        positive range =
      let cost = cost_of h m n ratio size in
      let b : Bill = local_bill h key_id ak cost in
      let attempt = alone h (attempt_local h ak.user_id key_id m ratio cost prompt n size refs) in
      write_cost-kept b w.session.db (charge (λ _. ltb_ℤ (pos 0) cost) b rec attempt w) (
        charge-within b (λ _. ltb_ℤ (pos 0) cost) rec attempt w positive range (λ v. refl)
          (λ v.
            verdict-CostsWithin b m ratio size n u
              (attempt_local h ak.user_id key_id m ratio cost prompt n size refs v.images) refl unit
              some_n small positive
              (attempt_local-CostsSome h bare m ratio size n some_n ak.user_id key_id cost prompt
                refs v.images)
              v))

  write_cost-TakesExactly :
      (b : Bill) (u : User) (d : Database) (x : Answer V)
      → TakesExactly b u d x
      → TakesExactly b u d (write_cost h x)
  unfolding write_cost
  write_cost-TakesExactly b u d ((refused status code, rec), w) p = ground (arith, p)
  write_cost-TakesExactly b u d ((served id images, rec), w) p = ground (arith, p)

  -- Where nothing fails in the driver, no attempt brings thumbnails, one image or more are wanted, the
  -- unit price is not negative and its product with their number fits an int64, and the balance of a
  -- live user covers the cost, which is positive and fits an int64: a request that the pool serves takes
  -- exactly the cost in its log, one that is refused takes nothing, and what is frozen is as before. The
  -- user's balance and what is frozen with the reservation fit an int64, and what was frozen before
  -- is not negative.
  pub generate_locally-TakesExactly :
      (key_id : ℕ) (ak : ApiKey) (m : Model) (ratio : ℤ) (prompt size : String) (n u : ℕ)
      (refs : List Source) (rec : Usage) (w : Site V) (d : Database) (turn : ℕ) (row : User)
      → BringsNoThumbs h.run_once
      → 1 ≤ n
      → resolve_image_unit_price h.lower h.trim h.split_x h.atoi m size ≡ pos u
      → u * n < half_word
      → pos 0 <ℤ cost_of h m n ratio size
      → InInt64 (cost_of h m n ratio size)
      → find ak.user_id d.users ≡ some row
      → row.deleted ≡ false
      → cost_of h m n ratio size ≤ℤ row.credit_balance
      → pos 0 ≤ℤ row.credit_frozen
      → InInt64 row.credit_balance
      → InInt64 (row.credit_frozen +ℤ cost_of h m n ratio size)
      → TakesExactly (local_bill h key_id ak (cost_of h m n ratio size)) row d (
          generate_locally h key_id ak m ratio prompt n size refs rec
            (record w { session = calm d turn }))
  unfolding generate_locally
  generate_locally-TakesExactly key_id ak m ratio prompt size n u refs rec w d turn row bare some_n
        unit small positive range found live covered held rb rf =
      let cost = cost_of h m n ratio size in
      let b : Bill = local_bill h key_id ak cost in
      let attempt = alone h (attempt_local h ak.user_id key_id m ratio cost prompt n size refs) in
      let wanted : ℤ → Bool = λ _. ltb_ℤ (pos 0) cost in
      let always : ltb_ℤ (pos 0) cost ≡ true = ground arith in
      write_cost-TakesExactly b row d
        (charge wanted b rec attempt (record w { session = calm d turn }))
        (charge-TakesExactly V b d turn row found live positive range covered held rb rf wanted rec
          attempt w (λ a. always) (λ v. refl)
          (λ v.
            verdict-CostsWithin b m ratio size n u
              (attempt_local h ak.user_id key_id m ratio cost prompt n size refs v.images) refl unit
              some_n small positive
              (attempt_local-CostsSome h bare m ratio size n some_n ak.user_id key_id cost prompt
                refs v.images)
              v))
