-- ===== src/Runtime/Wakeups.antt =====
-- That tcp-core/src/runtime loses no wakeup: what a pending future leaves behind, and what the reactor
-- does with it.
use ferrumnet.Prelude.{
  ℕ, ◌≡◌, ◌⊎◌, inl, inr, arith, refl, sym, ap, ap₂, if_case, if_both, ◌∙◌, Bool, true, false, not,
  ◌||◌, List, [], ◌∷◌, ◌++◌, length, Option, some, ltb, ◌==◌, Bool-cases, Option-cases, ◌<◌,
}
use ferrumnet.State.{accepts_data, closed, same_state}
use ferrumnet.Datagram.{Endpoint, same_endpoint}
use ferrumnet.Tcb
use ferrumnet.Tcb.{Tcb, tx_free, rx_available, is_reset, recv_eof, is_synchronized}
use ferrumnet.Iface.{Stack, find}
use ferrumnet.Iface.Table.{find-put}
use ferrumnet.Buffers.{write}
use ferrumnet.Runtime.{
  wake_accept, ReactorState, Poll, pending, check_read, read_from, poll_read, check_write, write_to,
  poll_write, wake_pass, read_ready, write_ready, connect_ready, dispatch_wakeups, announce, synced,
}

-- A task is among those woken.
abbrev pub Woken : ℕ → List ℕ → Type 0
Woken w [] = ⊥
Woken w (x ∷ xs) = (x ≡ w) ⊎ Woken w xs

right-Woken : (w : ℕ) (xs ys : List ℕ) → Woken w ys → Woken w (xs ++ ys)
right-Woken w [] ys h = h
right-Woken w (x ∷ xs) ys h = inr (right-Woken w xs ys h)

left-Woken : (w : ℕ) (xs ys : List ℕ) → Woken w xs → Woken w (xs ++ ys)
left-Woken w [] ys h = elim h [ ]
left-Woken w (x ∷ xs) ys (inl e) = inl e
left-Woken w (x ∷ xs) ys (inr h) = inr (left-Woken w xs ys h)

-- Those of the last two lists are among all.
among :
    (w : ℕ) (xs ys cs ds : List ℕ)
    → (Woken w cs → Woken w (xs ++ (ys ++ (cs ++ ds))))
      × (Woken w ds → Woken w (xs ++ (ys ++ (cs ++ ds))))
among w xs ys cs ds = (
  λ m. right-Woken w xs _ (right-Woken w ys _ (left-Woken w cs ds m)),
  λ m. right-Woken w xs _ (right-Woken w ys _ (right-Woken w cs ds m)),
)

same-eq : (x y : Endpoint) → same_endpoint x y ≡ true → x ≡ y
same-eq x y h = ground arith

module _ {V : Type 0} where
  find_here :
      (e k : Endpoint) (v : V) (rest : List (Endpoint × V))
      → same_endpoint k e ≡ true
      → find e ((k, v) ∷ rest) ≡ some v
  unfolding find
  find_here e k v rest h = rw h refl

  find_there :
      (e k : Endpoint) (v : V) (rest : List (Endpoint × V))
      → same_endpoint k e ≡ false
      → find e ((k, v) ∷ rest) ≡ find e rest
  unfolding find
  find_there e k v rest h = rw h refl

-- Of a registered waker: woken if its connection is ready, and else still registered.
abbrev Served : Bool → Endpoint → ℕ → List (Endpoint × ℕ) × List ℕ → Type 0
Served is_ready e w out =
    ((is_ready ≡ true) × Woken w out.1) ⊎ ((is_ready ≡ false) × (find e out.0 ≡ some w))

later-Served :
    (b : Bool) (e k : Endpoint) (v w : ℕ) (out : List (Endpoint × ℕ) × List ℕ)
    → same_endpoint k e ≡ false
    → Served b e w out
    → Served b e w (out.0, v ∷ out.1) × Served b e w ((k, v) ∷ out.0, out.1)
later-Served b e k v w out p (inl (r, m)) = (inl (r, inr m), inl (r, m))
later-Served b e k v w out p (inr (r, f)) = (inr (r, f), inr (r, find_there e k v out.0 p ∙ f))

carry :
    (b : Bool) (e : Endpoint) (w : ℕ) (regs : List (Endpoint × ℕ)) (xs ys : List ℕ)
    → Served b e w (regs, xs)
    → (Woken w xs → Woken w ys)
    → Served b e w (regs, ys)
carry b e w regs xs ys (inl (r, m)) f = inl (r, f m)
carry b e w regs xs ys (inr x) f = inr x

module _ {C : Type 0} where
  wake_pass-Served :
      (test : Option (Tcb C) → Bool) (s : Stack C) (regs : List (Endpoint × ℕ)) (e : Endpoint)
      (w : ℕ)
      → find e regs ≡ some w
      → Served (test (find e s.conns)) e w (wake_pass test s regs)
  unfolding wake_pass
  wake_pass-Served test s [] e w h = absurd (unfold find in cc h)
  wake_pass-Served test s ((k, v) ∷ rest) e w h =
      let later = wake_pass-Served test s rest e w in
      elim (Bool-cases (same_endpoint k e)) [
        | inl p ↦
            let found = find_here e k v rest p in
            let at = ap (λ x. test (find x s.conns)) (same-eq k e p) in
            if_case (λ out. Served (test (find e s.conns)) e w out) (test (find k s.conns)) _ _
              (λ t. inl (sym at ∙ t, inl (cc)))
              (λ t. inr (sym at ∙ t, find_here e k v _ p ∙ sym found ∙ h))
        | inr p ↦
            let both =
              later-Served (test (find e s.conns)) e k v w (wake_pass test s rest) p
                (later (sym (find_there e k v rest p) ∙ h)) in
            if_both (λ out. Served (test (find e s.conns)) e w out) (test (find k s.conns)) _ _
              both.0 both.1
      ]

  -- A poll that stays pending has left its waker, and found no progress to make.
  abbrev ReadPends : Endpoint → ℕ → Option (Tcb C) → Poll (ℕ × List ℕ) × ReactorState C → Type 0
  ReadPends e w o out =
      out.0 ≡ pending → (find e out.1.read_wakers ≡ some w) × (read_ready o ≡ false)

  check_read-ReadPends :
      (s : ReactorState C) (e : Endpoint) (buf : List ℕ) (w : ℕ) (t : Tcb C)
      → ReadPends e w (some t) (check_read s e buf w t)
  unfolding check_read read_ready
  check_read-ReadPends s e buf w t =
      if_case (λ out. ReadPends e w (some t) out) (ltb 0 (rx_available t)) _ _
        (λ x. elim (Option-cases (Tcb.recv t buf)) [
          | inl none_read ↦ rw none_read (λ h. cc)
          | inr (r, some_read) ↦ rw some_read (λ h. cc)
        ])
        λ x.
          if_case (λ out. ReadPends e w (some t) out) (is_reset t) _ _ (λ y h. cc)
            λ y.
              if_case (λ out. ReadPends e w (some t) out) (recv_eof t || same_state t.state closed)
                _ _ (λ z h. cc) (λ z h. (find-put e w s.read_wakers, ap₂ (λ a b. a || b) x z))

  poll_read-ReadPends :
      (s : ReactorState C) (e : Endpoint) (buf : List ℕ) (w : ℕ)
      → ReadPends e w (find e s.stack.conns) (poll_read s e buf w)
  unfolding poll_read read_from
  poll_read-ReadPends s e buf w =
      if_case (λ out. ReadPends e w (find e s.stack.conns) out) (length buf == 0) _ _ (λ x h. cc)
        (λ x. elim (Option-cases (find e s.stack.conns)) [
          | inl gone ↦ rw gone (λ h. cc)
          | inr (t, found) ↦ rw found (check_read-ReadPends s e buf w t)
        ])

  abbrev WritePends : Endpoint → ℕ → Option (Tcb C) → Poll ℕ × ReactorState C → Type 0
  WritePends e w o out =
      out.0 ≡ pending → (find e out.1.write_wakers ≡ some w) × (write_ready o ≡ false)

  -- A reader that stays pending is not lost: whatever becomes of the stack and of the other queues
  -- before the reactor dispatches, its task is woken if its connection is by then gone, closed, at its
  -- end or has bytes, and else its waker is still registered. When it was polled, none of these held.
  pub dispatch-poll_read :
      (s : ReactorState C) (e : Endpoint) (buf : List ℕ) (w : ℕ) (later : ReactorState C)
      → (poll_read s e buf w).0 ≡ pending
      → later.read_wakers ≡ (poll_read s e buf w).1.read_wakers
      → (read_ready (find e s.stack.conns) ≡ false)
        × (((read_ready (find e later.stack.conns) ≡ true) × Woken w (dispatch_wakeups later).0)
            ⊎ ((read_ready (find e later.stack.conns) ≡ false)
                × (find e (dispatch_wakeups later).1.read_wakers ≡ some w)))
  unfolding dispatch_wakeups
  dispatch-poll_read s e buf w later h k =
      let p = poll_read-ReadPends s e buf w h in
      let served =
        wake_pass-Served read_ready later.stack later.read_wakers e w
          (ap (λ regs. find e regs) k ∙ p.0) in
      (
        p.1,
        carry _ e w _ _ (dispatch_wakeups later).0 served
            (among w
              (wake_accept (announce (synced later.stack.local.port later.stack.conns) later)).0
              (wake_pass connect_ready later.stack later.connect_wakers).1
              (wake_pass read_ready later.stack later.read_wakers).1
              (wake_pass write_ready later.stack later.write_wakers).1).0,
      )

  -- Of at least one byte nothing is taken only if nothing is free.
  nothing-free :
      (t : Tcb C) (buf : List ℕ)
      → 0 < length buf
      → not (accepts_data t.state) ≡ false
      → ltb 0 (Tcb.send t buf).0 ≡ false
      → ltb 0 (tx_free t) ≡ false
  unfolding Tcb.send write
  nothing-free t buf p y z = ground (arith, p, y, z)

  check_write-WritePends :
      (s : ReactorState C) (e : Endpoint) (buf : List ℕ) (w : ℕ) (t : Tcb C)
      → 0 < length buf
      → WritePends e w (some t) (check_write s e buf w t)
  unfolding check_write write_ready
  check_write-WritePends s e buf w t p =
      if_case (λ out. WritePends e w (some t) out) (is_reset t) _ _ (λ x h. cc)
        λ x.
          if_case (λ out. WritePends e w (some t) out) (not (accepts_data t.state)) _ _ (λ y h. cc)
            λ y.
              if_case (λ out. WritePends e w (some t) out) (ltb 0 (Tcb.send t buf).0) _ _
                (λ z h. cc)
                (λ z h.
                  (find-put e w s.write_wakers, ap₂ (λ a b. a || b) y (nothing-free t buf p y z)))

  poll_write-WritePends :
      (s : ReactorState C) (e : Endpoint) (buf : List ℕ) (w : ℕ)
      → 0 < length buf
      → WritePends e w (find e s.stack.conns) (poll_write s e buf w)
  unfolding poll_write write_to
  poll_write-WritePends s e buf w p = elim (Option-cases (find e s.stack.conns)) [
    | inl gone ↦ rw gone (λ h. cc)
    | inr (t, found) ↦ rw found (check_write-WritePends s e buf w t p)
  ]

  -- A writer of at least one byte that stays pending is not lost: whatever becomes of the stack and of
  -- the other queues before the reactor dispatches, its task is woken if its connection is by then
  -- gone, has room or takes no bytes any more, and else its waker is still registered. When it was
  -- polled, none of these held.
  pub dispatch-poll_write :
      (s : ReactorState C) (e : Endpoint) (buf : List ℕ) (w : ℕ) (later : ReactorState C)
      → 0 < length buf
      → (poll_write s e buf w).0 ≡ pending
      → later.write_wakers ≡ (poll_write s e buf w).1.write_wakers
      → (write_ready (find e s.stack.conns) ≡ false)
        × (((write_ready (find e later.stack.conns) ≡ true) × Woken w (dispatch_wakeups later).0)
            ⊎ ((write_ready (find e later.stack.conns) ≡ false)
                × (find e (dispatch_wakeups later).1.write_wakers ≡ some w)))
  unfolding dispatch_wakeups
  dispatch-poll_write s e buf w later l h k =
      let p = poll_write-WritePends s e buf w l h in
      let served =
        wake_pass-Served write_ready later.stack later.write_wakers e w
          (ap (λ regs. find e regs) k ∙ p.0) in
      (
        p.1,
        carry _ e w _ _ (dispatch_wakeups later).0 served
            (among w
              (wake_accept (announce (synced later.stack.local.port later.stack.conns) later)).0
              (wake_pass connect_ready later.stack later.connect_wakers).1
              (wake_pass read_ready later.stack later.read_wakers).1
              (wake_pass write_ready later.stack later.write_wakers).1).1,
      )

  nothing-taken : (t : Tcb C) → ltb 0 (Tcb.send t []).0 ≡ false
  unfolding Tcb.send write
  nothing-taken t = ground arith

  -- A write of no bytes to an open connection stays pending, also with room for bytes.
  pub empty_write-pends :
      (s : ReactorState C) (e : Endpoint) (w : ℕ) (t : Tcb C)
      → find e s.stack.conns ≡ some t
      → is_reset t ≡ false
      → accepts_data t.state ≡ true
      → (poll_write s e [] w).0 ≡ pending
  unfolding poll_write write_to check_write
  empty_write-pends s e w t f r a =
      let Pends : Poll ℕ × ReactorState C → Type 0 = λ out. out.0 ≡ pending in
      rw f (
        if_case Pends (is_reset t) _ _ (λ x. absurd (cc))
          λ x.
            if_case Pends (not (accepts_data t.state)) _ _ (λ y. absurd (cc))
              λ y.
                if_case Pends (ltb 0 (Tcb.send t []).0) _ _ (λ z. absurd (cc (nothing-taken t)))
                  (λ z. refl))
