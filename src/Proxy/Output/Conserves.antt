-- ===== src/Proxy/Output/Conserves.antt =====
-- What is written is what was queued (side_out_cb of dbus-proxy/xdg-app-proxy.c).
use mathlib.Core.Option
use xdg_app.Prelude.{
  ==_iff, All, Bool, Bool-cases, Bytes, List, List-cases, Option, [], ap, append_assoc, arith, drop,
  drop-take, false, if_cases, inl, inr, none, refl, some, subst, sym, take, true, ◌&&◌, ◌++◌, ◌-◌,
  ◌==◌, ◌∙◌, ◌∷◌, ◌≡◌, ◌⊎◌,
}
use xdg_app.Proxy.Output.{Sent, Written, buffer_write, out_loop, pop_written, set_buffers}
use xdg_app.Proxy.Output.Writes.{IsQueued, IsSpent, Wrote, buffer_write-Wrote, unsent, unsent_all}
use xdg_app.Proxy.State.{Buffer, Client, End, bus_end, client_end, get_side}

-- The output and the bytes still queued are together what was queued, and the queue is one that
-- can be written.
abbrev pub Conserves : Bool → End → List Buffer → Option (Client × Bytes) → Type 0
Conserves unix e queue none = ⊥
Conserves unix e queue (some (c, output)) =
    (output ++ unsent_all unix (get_side e c).buffers ≡ unsent_all unix queue)
    × All (IsQueued unix) (get_side e c).buffers

buffers-set_buffers :
    (e : End) (queue : List Buffer) (c : Client)
    → (get_side e (set_buffers e queue c)).buffers ≡ queue
buffers-set_buffers client_end queue c = refl
buffers-set_buffers bus_end queue c = refl

spent :
    (unix : Bool) (b : Buffer)
    → IsQueued unix b ⊎ IsSpent unix b
    → b.pos ≡ b.size
    → unsent unix b ≡ []
spent unix b (inr (whole, empty)) e = empty
spent unix b (inl queued) e =
    if_cases (λ t. t ≡ []) (b.send_credentials && unix) (λ creds. ground (arith, queued creds))
      (λ other.
        (let room : b.size - b.pos ≡ 0 = omega (arith, e) in
          drop-take b.pos b.size b.bytes ∙ ap (λ n. take n (drop b.pos b.bytes)) room))

module _ (unix : Bool) (b : Buffer) (rest : List Buffer) (state : IsQueued unix b ⊎ IsSpent unix b)
    (all : All (IsQueued unix) rest) where
  pop_written-unsent : unsent_all unix (pop_written b rest) ≡ unsent unix b ++ unsent_all unix rest
  pop_written-unsent =
      if_cases (λ q. unsent_all unix q ≡ unsent unix b ++ unsent_all unix rest) (b.pos == b.size)
        (λ whole.
          ap (λ t. t ++ unsent_all unix rest) (sym (spent unix b state ((==_iff _ _).0 whole))))
        (λ part. refl)

  still-IsQueued : (IsQueued unix b ⊎ IsSpent unix b) → b.pos == b.size ≡ false → IsQueued unix b
  still-IsQueued (inl queued) part = queued
  still-IsQueued (inr (whole, empty)) part = ground (arith, whole, part)

  pop_written-IsQueued : All (IsQueued unix) (pop_written b rest)
  pop_written-IsQueued =
      if_cases (All (IsQueued unix)) (b.pos == b.size) (λ whole. all)
        (λ part. (still-IsQueued state part, all))

prepend-Conserves :
    (unix : Bool) (e : End) (queue queue' : List Buffer) (output : Bytes)
    (o : Option (Client × Bytes))
    → output ++ unsent_all unix queue' ≡ unsent_all unix queue
    → Conserves unix e queue' o
    → Conserves unix e queue (Option.map (λ o. (o.0, output ++ o.1)) o)
prepend-Conserves unix e queue queue' output none eq h = h
prepend-Conserves unix e queue queue' output (some (c, more)) eq (h, all) = (
  append_assoc output more (unsent_all unix (get_side e c).buffers)
      ∙ (ap (λ t. output ++ t) h ∙ eq),
  all,
)

-- The loop goes on with the head of the queue as it was left.
after_write :
    (unix : Bool) (e : End) (b : Buffer) (rest : List Buffer) (w : Written) (rs : List Sent)
    → Wrote unix b (some w)
    → All (IsQueued unix) rest
    → ((c : Client)
        → All (IsQueued unix) (get_side e c).buffers
        → Conserves unix e (get_side e c).buffers (out_loop unix e rs c))
    → Conserves unix e (b ∷ rest) (elim w.success [
      | true ↦
          Option.map
            (λ o. (o.0, w.output ++ o.1))
            (out_loop unix e rs (set_buffers e (pop_written w.buffer rest) w.client))
      | false ↦ some (set_buffers e (w.buffer ∷ rest) w.client, w.output)
    ])
after_write unix e b rest w rs (same, state) all go = elim (Bool-cases w.success) [
  | inl more ↦
      (let queue = pop_written w.buffer rest in
        let state' : IsQueued unix w.buffer ⊎ IsSpent unix w.buffer = elim state [
          | inl queued ↦ inl queued
          | inr ended ↦ inr ended.0
        ] in
        let c' = set_buffers e queue w.client in
        let h = buffers-set_buffers e queue w.client in
        let eq : w.output ++ unsent_all unix queue ≡ unsent_all unix (b ∷ rest) =
          ap (λ t. w.output ++ t) (pop_written-unsent unix w.buffer rest state' all)
          ∙ (sym (append_assoc w.output (unsent unix w.buffer) (unsent_all unix rest))
              ∙ ap (λ t. t ++ unsent_all unix rest) same) in
        rw more (
          prepend-Conserves unix e (b ∷ rest) queue w.output (out_loop unix e rs c') eq (
            subst (λ q. Conserves unix e q (out_loop unix e rs c')) h
              (go c' (rw h (pop_written-IsQueued unix w.buffer rest state' all))))))
  | inr stopped ↦
      (let h = buffers-set_buffers e (w.buffer ∷ rest) w.client in
        let queued : IsQueued unix w.buffer = elim state [
          | inl queued ↦ queued
          | inr ended ↦ ground (arith, ended, stopped)
        ] in
        rw (stopped, h)
          (
            sym (append_assoc w.output (unsent unix w.buffer) (unsent_all unix rest))
                ∙ ap (λ t. t ++ unsent_all unix rest) same,
            (queued, all),
          ))
]

Written-cases :
    (unix : Bool) (b : Buffer) (o : Option Written)
    → Wrote unix b o
    → (w : Written) × (o ≡ some w) × Wrote unix b (some w)
Written-cases unix b none h = elim h [ ]
Written-cases unix b (some w) h = (w, refl, h)

-- However the socket takes what it is given, in pieces of any size, what the loop of side_out_cb
-- writes is what was queued: the output and what is then left on the queue are together the
-- bytes that were queued, in order, if queued credentials have a buffer of one byte that has not
-- been sent. The assertion on credentials holds, and what is left is queued that way again.
pub out_loop-Conserves :
    (unix : Bool) (e : End) (script : List Sent) (c : Client)
    → All (IsQueued unix) (get_side e c).buffers
    → Conserves unix e (get_side e c).buffers (out_loop unix e script c)
unfolding out_loop
out_loop-Conserves unix e [] c all = (refl, all)
out_loop-Conserves unix e (r ∷ rs) c all = elim (List-cases (get_side e c).buffers) [
  | inl empty ↦ rw (empty, out_loop) (rw empty (refl, tt))
  | inr (b, rest, queue) ↦
      (let (queued, all') = subst (All (IsQueued unix)) queue all in
        let (w, wrote, state) =
          Written-cases unix b (buffer_write unix e r c b)
            (buffer_write-Wrote unix e r c b queued) in
        rw (queue, out_loop, wrote)
          (after_write unix e b rest w rs state all' (out_loop-Conserves unix e rs)))
]
