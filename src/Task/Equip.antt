-- ===== src/Task/Equip.antt =====
-- From a slot with its stack to a task in the queue.
use ap_pa.Base.{
  ℕ, ◌+◌, ◌-◌, ◌*◌, ◌/◌, ◌≤◌, ◌<◌, ◌≡◌, ◌≢◌, true, false, not, refl, sym, ap, ◌∙◌, List, [], ◌∷◌,
  ◌++◌, arith, length, ◌==◌, ==_iff, ==_false, if◌then◌else◌, if_true, if_false, some, Bool,
}
use ap_pa.Pmm.{test_frame}
use ap_pa.Pmm.Count.{IsPmm, count_add, count-le}
use ap_pa.Pmm.Alloc.{Takes}
use ap_pa.Sched.{Task}
use ap_pa.Sched.Queue.{IsQueue, IsQueue-elsewhere}
use ap_pa.Task.{Image, Tasks, Tcb, launch, slot}
use ap_pa.Task.Pool.{IsImage, IsTasks, Others, SameSpaces, stack_of, in_use, IsTasks-filled}
use ap_pa.Task.Launch.{Launched, launch-Launched}

-- Before the launch: slot `i`, free in `s`, has frame `f` as its stack.
pub record Equipped (k : Image) (s : Tasks) (l : List ℕ) (i f : ℕ) (e : Tasks) : Type 0 where
  pub others : Others k i s e
  pub queue : IsQueue e.sched l
  pub valid : IsPmm e.paging.pmm
  pub kept : (g : ℕ) → test_frame s.paging.pmm g ≡ true → test_frame e.paging.pmm g ≡ true
  pub fresh : test_frame s.paging.pmm f ≡ false
  pub taken : test_frame e.paging.pmm f ≡ true
  pub in_range : f < 4096
  pub stack : stack_of k e i ≡ f * 4096
  pub top : (e.sched.tasks (slot k i)).esp0 ≡ f * 4096 + 4096
  pub spaces : SameSpaces k i s e
  pub name : length (e.tcbs (slot k i)).name ≡ 32

-- With a free slot the queue has room.
queue_room :
    {k : Image} {s : Tasks} {l : List ℕ}
    → IsTasks k s l
    → (i : ℕ) → i < 64
    → stack_of k s i ≡ 0
    → length l < 65
queue_room {k = k} {s = s} v i lt free =
    let filled : ℕ → Bool = λ g. if i == g then true else in_use k s g in
    omega (
      arith,
      v.counted,
      count-le 64 filled,
      count_add 64 i (in_use k s) filled lt (ap (λ n. not (n == 0)) free) (λ g. refl),
    )

module _ {k : Image} {s : Tasks} {l : List ℕ} {i f : ℕ} {e : Tasks} (image : IsImage k)
    (v : IsTasks k s l) (lt : i < 64) (free : stack_of k s i ≡ 0) (q : Equipped k s l i f e)
    (frame : List ℕ) (small : length frame ≤ 16) where
  pub fresh-ne : f ≢ 0
  fresh-ne z =
      let clash : false ≡ true = sym q.fresh ∙ ap (test_frame s.paging.pmm) z ∙ v.reserved in cc

  pub launched :
      (s' : Tasks) × (launch e (slot k i) frame ≡ some (s', slot k i))
      × Launched e s' (slot k i) l frame
  launched =
      let top = q.top in
      let range = q.in_range in
      launch-Launched e (slot k i) l frame q.queue (omega (arith, v.counted))
        (queue_room v i lt free) (v.out i lt free) (λ z. image.pool (omega arith)) (omega arith)
        (omega arith)

  pub Launched-IsTasks :
      (s' : Tasks) → Launched e s' (slot k i) l frame → IsTasks k s' (l ++ slot k i ∷ [])
  Launched-IsTasks s' b =
      let new = b.tcbs in
      let at = ap {A = ℕ → Tcb} (λ t. (t (slot k i)).kernel_stack) new in
      let self =
        if_true (slot k i == slot k i)
          (record (e.tcbs (slot k i)) { esp = (e.sched.tasks (slot k i)).esp0 - 4 * length frame })
          (e.tcbs (slot k i)) ((==_iff (slot k i) (slot k i)).1 refl) in
      let stack : stack_of k s' i ≡ f * 4096 =
        at ∙ ap {A = Tcb} (λ t. t.kernel_stack) self ∙ q.stack in
      let frame_of : stack_of k s' i / 4096 ≡ f = omega arith in
      let range = q.in_range in
      IsTasks-filled v i lt free s'
        (λ u ne.
          ap {A = ℕ → Tcb} (λ t. t u) new
          ∙ if_false (u == slot k i) _ _ (==_false u (slot k i) ne)
          ∙ q.others u ne)
        b.queue (rw b.pmm q.valid) (λ g h. rw b.pmm (q.kept g h)) (rw frame_of q.fresh)
        (record { aligned = omega arith; low = omega arith; taken = rw (frame_of, b.pmm) q.taken })
        (λ z. fresh-ne (omega arith))
        (ap {A = ℕ → Tcb} (λ t. length (t (slot k i)).name) new
          ∙ ap {A = Tcb} (λ t. length t.name) self
          ∙ q.name)
        (λ u ne. b.spaces u ∙ q.spaces u ne)

-- Frame `f` is a page that is new.
pub Takes-Equipped :
    {k : Image} {s : Tasks} {l : List ℕ} {f : ℕ}
    → IsTasks k s l
    → (i : ℕ) → stack_of k s i ≡ 0
    → i < 64
    → (e : Tasks) → Takes s.paging.pmm f 1 e.paging.pmm
    → Others k i s e
    → ((u : ℕ) → u ≢ slot k i → e.sched.tasks u ≡ s.sched.tasks u)
    → e.sched.ready_head ≡ s.sched.ready_head
    → (e.sched.tasks (slot k i)).esp0 ≡ f * 4096 + 4096
    → stack_of k e i ≡ f * 4096
    → length (e.tcbs (slot k i)).name ≡ 32
    → Equipped k s l i f e
Takes-Equipped {k = k} {s = s} {l = l} {f = f} v i free lt e takes others same head top stack name =
    record {
      others = others;
      queue = IsQueue-elsewhere s.sched e.sched (slot k i) l same head (v.out i lt free) v.queue;
      valid = takes.valid;
      kept = λ g h. ground (arith, takes.marked g);
      fresh = takes.were_free f (omega arith) (omega arith);
      taken = ground (arith, takes.marked f);
      in_range = omega (arith, takes.in_range);
      stack = stack;
      top = top;
      spaces = λ u ne. ap {A = Task} (λ t. t.cr3) (same u ne);
      name = name;
    }
