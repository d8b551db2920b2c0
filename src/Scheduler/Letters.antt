-- ===== src/Scheduler/Letters.antt =====
-- The messages of a mailbox as a list of texts: what `ipc_send` (src/scheduler.c) does to it.
use sky_net_os.Base.{
  suc, refl, inl, inr, true, false, none, some, sym, ap, subst, length, length-append, Bool-cases,
  arith, if-true, if-false, ℕ, Option, List, ◌+◌, ◌≡◌, ◌∷◌, ◌++◌, [], if◌then◌else◌, leb, Bool, ◌≤◌,
  ◌<◌, ◌∙◌, leb→le,
}
use sky_net_os.Scheduler.State.{Message, Tcb, max_ipc_messages}
use sky_net_os.Scheduler.Mailbox.{deposit, put_message, clipped}

-- The texts of the valid entries, whole, by slot.
unfoldable pub texts : List Message → List (List ℕ)
texts [] = []
texts (m ∷ ms) = let rest = texts ms in if m.valid then m.message ∷ rest else rest

-- `l'` is `l` with `x` put in somewhere.
abbrev pub Inserted : List ℕ → List (List ℕ) → List (List ℕ) → Type 0
Inserted x l l' =
    (xs : List (List ℕ)) × (ys : List (List ℕ)) × (l ≡ xs ++ ys) × (l' ≡ xs ++ (x ∷ ys))

-- The count is that of the valid entries, and the array has its length.
pub record IsMailbox (t : Tcb) : Type 0 where
  pub slots : length t.mailbox ≡ max_ipc_messages
  pub counted : t.msg_count ≡ length (texts t.mailbox)

Inserted-cons :
    (y x : List ℕ) (l l' : List (List ℕ)) → Inserted x l l' → Inserted x (y ∷ l) (y ∷ l')
Inserted-cons y x l l' (xs, ys, e, e') = (y ∷ xs, ys, ap (λ r. y ∷ r) e, ap (λ r. y ∷ r) e')

pub Inserted-length :
    {x : List ℕ} {l l' : List (List ℕ)} → Inserted x l l' → length l' ≡ length l + 1
Inserted-length {x} (xs, ys, e, e') =
    omega (arith, ap length e, ap length e', length-append xs ys, length-append xs (x ∷ ys))

-- What `deposit` comes to.
abbrev pub Deposited : List ℕ → List Message → Option (List Message) → Type 0
Deposited msg ms none = length (texts ms) ≡ length ms
Deposited msg ms (some ms') =
    (length ms' ≡ length ms) × Inserted (clipped msg) (texts ms) (texts ms')

Deposited-taken :
    (msg : List ℕ) (m : Message) (ms : List Message) (o : Option (List Message))
    → m.valid ≡ true
    → Deposited msg ms o
    → Deposited msg (m ∷ ms) (elim o [ none ↦ none | some ms' ↦ some (m ∷ ms') ])
unfolding texts
Deposited-taken msg m ms none v h = rw (texts, v) (ap suc h)
Deposited-taken msg m ms (some ms') v (same, ins) =
    rw (texts, v) (ap suc same, Inserted-cons m.message (clipped msg) (texts ms) (texts ms') ins)

pub deposit-Deposited : (msg : List ℕ) (ms : List Message) → Deposited msg ms (deposit msg ms)
unfolding deposit texts
deposit-Deposited msg [] = refl
deposit-Deposited msg (m ∷ ms) = elim (Bool-cases m.valid) [
  | inl v ↦
      subst (Deposited msg (m ∷ ms)) (sym (if-true _ _ v))
        (Deposited-taken msg m ms (deposit msg ms) v (deposit-Deposited msg ms))
  | inr free ↦
      subst (Deposited msg (m ∷ ms)) (sym (if-false _ _ free))
        (refl, ([], texts ms, if-false _ _ free, refl))
]

-- What the body of `ipc_send` comes to: it refuses where five messages wait, and changes nothing, or
-- it adds the text, cut to 63 bytes.
abbrev pub Put : List ℕ → Tcb → Tcb × Bool → Type 0
Put msg t (t', false) = (t.msg_count ≡ max_ipc_messages) × (t' ≡ t)
Put msg t (t', true) =
    IsMailbox t'
    × (t.msg_count < max_ipc_messages)
    × Inserted (clipped msg) (texts t.mailbox) (texts t'.mailbox)

texts-length : (ms : List Message) → length (texts ms) ≤ length ms
unfolding texts
texts-length [] = omega arith
texts-length (m ∷ ms) = elim (Bool-cases m.valid) [
  | inl v ↦ rw (texts, v) (omega (arith, texts-length ms))
  | inr free ↦ rw (texts, free) (omega (arith, texts-length ms))
]

Put-deposit :
    (msg : List ℕ) (t : Tcb) (o : Option (List Message))
    → IsMailbox t
    → t.msg_count < max_ipc_messages
    → Deposited msg t.mailbox o
    → Put msg t (elim o [
      | none ↦ (t, false)
      | some ms ↦ (record t { mailbox = ms; msg_count = t.msg_count + 1 }, true)
    ])
Put-deposit msg t none v room full = absurd (omega (arith, v.counted, v.slots))
Put-deposit msg t (some ms) v room (same, ins) = (
  record { slots = same ∙ v.slots; counted = omega (arith, v.counted, Inserted-length ins) },
  room,
  ins,
)

-- The body of ipc_send, on a mailbox whose count is right, refuses exactly where five messages wait
-- and then changes nothing; otherwise it adds the text, cut to 63 bytes, to the texts that wait, and
-- the count is right again.
pub put_message-Put : (msg : List ℕ) (t : Tcb) → IsMailbox t → Put msg t (put_message msg t)
unfolding put_message
put_message-Put msg t v = elim (Bool-cases (leb max_ipc_messages t.msg_count)) [
  | inl full ↦ subst (Put msg t) (sym (if-true _ _ full)) (
      let le = leb→le max_ipc_messages t.msg_count full in
      (omega (arith, v.counted, v.slots, texts-length t.mailbox), refl))
  | inr room ↦
      subst (Put msg t) (sym (if-false _ _ room)) (
        Put-deposit msg t (deposit msg t.mailbox) v (ground arith)
          (deposit-Deposited msg t.mailbox))
]
