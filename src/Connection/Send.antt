-- ===== src/Connection/Send.antt =====
-- include/tarantool_connector/connection.h: the writes of a connection against the requests to send.
use mathlib.Core.List.{flatten}
use tntpp.Common.{
  ℕ, ◌≡◌, refl, sym, ap, ◌∙◌, true, false, none, some, List, [], ◌∷◌, ◌++◌, arith, append-nil,
  append_assoc, if◌then◌else◌, Bool-cases, List-cases, inl, inr, ◌⊎◌, ◌+◌, ◌-◌, ◌<◌, length,
  length-append,
}
use tntpp.Errc.{ErrorCode}
use tntpp.Queue.{DbQueue, is_empty, is_ready, push, swap, new_queue}
use tntpp.Queue
use tntpp.Connection.{
  Connection, Event, sends, written, send_data, on_data_sent, step, run, new_connection,
}

module _ {Data : Type 0} where
  -- While no write is under way nothing waits in the queue.
  abbrev pub IsPrompt : Connection Data → Type 0
  IsPrompt c = (c.sending ≡ true) ⊎ (c.queue.active ≡ [])

  -- All data in the order in which it was or will be written.
  abbrev pub scheduled : Connection Data → List Data
  scheduled c = flatten c.writes ++ c.queue.active

  abbrev pub sent : List (Event Data) → List Data
  sent [] = []
  sent (sends d ∷ es) = d ∷ sent es
  sent (written ec ∷ es) = sent es

  -- No write of the history fails.
  abbrev pub Succeeds : List (Event Data) → Type 0
  Succeeds [] = Unit
  Succeeds (sends d ∷ es) = Succeeds es
  Succeeds (written none ∷ es) = Succeeds es
  Succeeds (written (some e) ∷ es) = ⊥

  on_data_sent_idle :
      (c : Connection Data)
      → c.queue.active ≡ []
      → on_data_sent c none ≡ record c { sending = false }
  unfolding on_data_sent is_ready
  on_data_sent_idle c h = ground arith

  abbrev next_batch : Connection Data → Data → List Data → Connection Data
  next_batch c x xs = record c {
    sending = true;
    queue = record (c.queue) { active = []; inactive = x ∷ xs };
    writes = c.writes ++ (x ∷ xs) ∷ [];
  }

  on_data_sent_more :
      (c : Connection Data) (x : Data) (xs : List Data)
      → c.queue.active ≡ x ∷ xs
      → on_data_sent c none ≡ next_batch c x xs
  unfolding on_data_sent is_ready swap
  on_data_sent_more c x xs h = ground arith

  abbrev dropped : Connection Data → Connection Data
  dropped c = record c {
    sending = false;
    is_open = false;
    queue = record (c.queue) { active = []; inactive = [] };
  }

  on_data_sent_error : (c : Connection Data) (e : ErrorCode) → on_data_sent c (some e) ≡ dropped c
  unfolding on_data_sent is_ready Queue.clear
  on_data_sent_error c e = refl

  abbrev queued : Connection Data → Data → Connection Data
  queued c d = record c { queue = record (c.queue) { active = c.queue.active ++ d ∷ [] } }

  send_data_busy : (c : Connection Data) (d : Data) → c.sending ≡ true → send_data c d ≡ queued c d
  unfolding send_data push
  send_data_busy c d h = ground arith

  abbrev single : Connection Data → Data → Connection Data
  single c d = record c { sending = true; writes = c.writes ++ (d ∷ []) ∷ [] }

  send_data_idle : (c : Connection Data) (d : Data) → c.sending ≡ false → send_data c d ≡ single c d
  unfolding send_data
  send_data_idle c d h = ground arith

  pub step-IsPrompt : (c : Connection Data) (e : Event Data) → IsPrompt c → IsPrompt (step c e)
  unfolding step push
  step-IsPrompt c (sends d) p = ground arith
  step-IsPrompt c (written none) p = elim (List-cases c.queue.active) [
    | inl e ↦ rw (on_data_sent_idle c e) (inr e)
    | inr (x, xs, e) ↦ rw (on_data_sent_more c x xs e) (inl refl)
  ]
  step-IsPrompt c (written (some e)) p = rw (on_data_sent_error c e) (inr refl)

  flatten-one :
      (xss : List (List Data)) (ys : List Data) → flatten (xss ++ ys ∷ []) ≡ flatten xss ++ ys
  unfolding flatten
  flatten-one [] ys = append-nil ys
  flatten-one (xs ∷ xss) ys =
      ap (λ l. xs ++ l) (flatten-one xss ys) ∙ sym (append_assoc xs (flatten xss) ys)

  scheduled-step :
      (c : Connection Data) (e : Event Data)
      → IsPrompt c
      → Succeeds (e ∷ [])
      → scheduled (step c e) ≡ scheduled c ++ sent (e ∷ [])
  unfolding step push
  scheduled-step c (sends d) p s = elim (Bool-cases c.sending) [
    | inl e ↦
        rw (send_data_busy c d e) (sym (append_assoc (flatten c.writes) c.queue.active (d ∷ [])))
    | inr e ↦
        let none_waits : c.queue.active ≡ [] = ground (arith, p) in
        rw (send_data_idle c d e, none_waits)
          (append-nil _
            ∙ flatten-one c.writes (d ∷ [])
            ∙ ap (λ l. l ++ d ∷ []) (sym (append-nil _)))
  ]
  scheduled-step c (written none) p s = elim (List-cases c.queue.active) [
    | inl e ↦ rw (on_data_sent_idle c e) (sym (append-nil _))
    | inr (x, xs, e) ↦
        rw (on_data_sent_more c x xs e, e)
          (append-nil _ ∙ flatten-one c.writes (x ∷ xs) ∙ sym (append-nil _))
  ]
  scheduled-step c (written (some e)) p s = absurd s

  -- From a connection in which nothing waits unless a write is under way, such as a new one, and
  -- if no write fails, the data of all writes, in order, and then what waits in the queue are the
  -- data that were there before and then all data that `send_data` was given, in the order of the
  -- calls; and again nothing waits unless a write is under way.
  pub scheduled-run :
      (c : Connection Data) (es : List (Event Data))
      → IsPrompt c
      → Succeeds es
      → (scheduled (run c es) ≡ scheduled c ++ sent es) × IsPrompt (run c es)
  unfolding run
  scheduled-run c [] p s = (sym (append-nil (scheduled c)), p)
  scheduled-run c (sends d ∷ es) p s =
      let (e, q) = scheduled-run (step c (sends d)) es (step-IsPrompt c (sends d) p) s in
      (
        e
            ∙ ap (λ l. l ++ sent es) (scheduled-step c (sends d) p tt)
            ∙ append_assoc (scheduled c) (d ∷ []) (sent es),
        q,
      )
  scheduled-run c (written none ∷ es) p s =
      let (e, q) = scheduled-run (step c (written none)) es (step-IsPrompt c (written none) p) s in
      (
        e
            ∙ ap (λ l. l ++ sent es)
                (scheduled-step c (written none) p tt ∙ append-nil (scheduled c)),
        q,
      )
  scheduled-run c (written (some k) ∷ es) p s = absurd s

  -- The number of writes under way after an event, from that before it: a completion ends one.
  abbrev pub under_way : Connection Data → ℕ → Event Data → ℕ
  under_way c n (sends d) = n + (length (send_data c d).writes - length c.writes)
  under_way c n (written ec) = n - 1 + (length (on_data_sent c ec).writes - length c.writes)

  -- A write completes only while one is under way.
  abbrev pub IsPossible : ℕ → Event Data → Type 0
  IsPossible n (sends d) = Unit
  IsPossible n (written ec) = 0 < n

  abbrev pub Feasible : Connection Data → ℕ → List (Event Data) → Type 0
  Feasible c n [] = Unit
  Feasible c n (e ∷ es) = IsPossible n e × Feasible (step c e) (under_way c n e) es

  unfoldable pub outstanding : Connection Data → ℕ → List (Event Data) → ℕ
  outstanding c n [] = n
  outstanding c n (e ∷ es) = outstanding (step c e) (under_way c n e) es

  abbrev pub busy : Connection Data → ℕ
  busy c = if c.sending then 1 else 0

  busy-step :
      (c : Connection Data) (n : ℕ) (e : Event Data)
      → n ≡ busy c
      → IsPossible n e
      → under_way c n e ≡ busy (step c e)
  unfolding step
  busy-step c n (sends d) b h = elim (Bool-cases c.sending) [
    | inl e ↦ rw (send_data_busy c d e) (ground arith)
    | inr e ↦ rw (send_data_idle c d e) (ground (arith, length-append c.writes ((d ∷ []) ∷ [])))
  ]
  busy-step c n (written none) b h = elim (List-cases c.queue.active) [
    | inl e ↦ rw (on_data_sent_idle c e) (ground arith)
    | inr (x, xs, e) ↦
        rw (on_data_sent_more c x xs e) (ground (arith, length-append c.writes ((x ∷ xs) ∷ [])))
  ]
  busy-step c n (written (some e)) b h = rw (on_data_sent_error c e) (ground arith)

  -- In a history in which writes complete only while they are under way, failing or not, at most
  -- one write is under way at any time, and one is exactly if `m_sending` is set.
  pub outstanding-busy :
      (c : Connection Data) (n : ℕ) (es : List (Event Data))
      → n ≡ busy c
      → Feasible c n es
      → outstanding c n es ≡ busy (run c es)
  unfolding outstanding run
  outstanding-busy c n [] b f = b
  outstanding-busy c n (e ∷ es) b (p, f) =
      outstanding-busy (step c e) (under_way c n e) es (busy-step c n e b p) f

  IsPrompt-idle : (c : Connection Data) → IsPrompt c → busy c ≡ 0 → c.queue.active ≡ []
  IsPrompt-idle c p h = ground arith

  -- Once all writes of a new connection have completed, none of them with an error, what was
  -- written is exactly what `send_data` was given, in that order: nothing is left in the queue.
  pub all_written :
      (capacity : ℕ) (es : List (Event Data))
      → Feasible (new_connection capacity) 0 es
      → Succeeds es
      → outstanding (new_connection capacity) 0 es ≡ 0
      → flatten (run (new_connection capacity) es).writes ≡ sent es
  unfolding new_connection new_queue flatten
  all_written capacity es f s z =
      let c : Connection Data = new_connection capacity in
      let (e, p) = scheduled-run c es (inr refl) s in
      let none_waits = IsPrompt-idle (run c es) p (sym (outstanding-busy c 0 es refl f) ∙ z) in
      sym (append-nil (flatten (run c es).writes))
      ∙ ap (λ l. flatten (run c es).writes ++ l) (sym none_waits)
      ∙ e
