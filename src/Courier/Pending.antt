-- ===== src/Courier/Pending.antt =====
-- The messages of a round that are still to settle.
use kratos.Base.{leb, zero, suc, ℕ, ◌≡◌, Bool, true, false, ◌&&◌}
use kratos.Base.{
  List, [], ◌∷◌, map, any, All, take, if◌then◌else◌, ◌==◌, nat_eq, string_eq, arith, Bool-cases,
  inl, inr,
}
use kratos.Base.Find.{filter, update_where, count}
use kratos.Courier.{
  Message, MessageStatus, queued, sent, processing, has_id, with_status, mark_processing,
  next_batch, by_created_at, insert_by_created_at, is_next,
}
use kratos.Courier.Dispatch.{}

abbrev pub is_processing : MessageStatus → Bool
is_processing queued = false
is_processing sent = false
is_processing processing = true

abbrev among : List Message → Message → Bool
among bs row = any (λ b. row.id == b.id && row.nid == b.nid) bs

-- The rows being processed are among the messages of the batch that are still to settle.
abbrev pub Pending : List Message → Message → Type 0
Pending bs row = is_processing row.status ≡ true → among bs row ≡ true

-- No message is being processed.
abbrev pub IsIdle : List Message → Type 0
IsIdle = All (λ row. is_processing row.status ≡ false)

pub IsIdle-Pending : (table : List Message) → IsIdle table → All (Pending []) table
IsIdle-Pending [] h = tt
IsIdle-Pending (row ∷ table) (h, hs) = (λ p. ground arith, IsIdle-Pending table hs)

pub Pending-IsIdle : (table : List Message) → All (Pending []) table → IsIdle table
Pending-IsIdle [] h = tt
Pending-IsIdle (row ∷ table) (h, hs) = (ground (arith, h), Pending-IsIdle table hs)

pub All-update :
    (P Q : Message → Type 0) (p : Message → Bool) (f : Message → Message) (table : List Message)
    → ((row : Message) → P row → Q (if p row then f row else row))
    → All P table
    → All Q (update_where p f table)
All-update P Q p f [] step h = tt
All-update P Q p f (row ∷ table) step (h, hs) = (step row h, All-update P Q p f table step hs)

pub All-skip :
    (P Q : Message → Type 0) (p : Message → Bool) (table : List Message)
    → count p table ≡ 0
    → ((row : Message) → p row ≡ false → P row → Q row)
    → All P table
    → All Q table
All-skip P Q p [] none_of_them step h = tt
All-skip P Q p (row ∷ table) none_of_them step (h, hs) =
    (step row (ground arith) h, All-skip P Q p table (ground arith) step hs)

-- What is marked is pending.
pub mark-Pending :
    (ms bs : List Message) (table : List Message)
    → All (Pending bs) table
    → (ms' : List Message) → ((row : Message) → among bs row ≡ true → among ms' row ≡ true)
    → ((row : Message) → among ms row ≡ true → among ms' row ≡ true)
    → All (Pending ms') (mark_processing ms table)
unfolding mark_processing
mark-Pending [] bs table h ms' sub sub' = All-weaken table h
  where
    All-weaken : (table : List Message) → All (Pending bs) table → All (Pending ms') table
    All-weaken [] h = tt
    All-weaken (row ∷ table) (h, hs) = (λ p. sub row (h p), All-weaken table hs)
mark-Pending (m ∷ ms) bs table h ms' sub sub' =
    mark-Pending ms ms' (update_where (has_id m.nid m.id) (with_status processing) table)
      (All-update (Pending bs) (Pending ms') (has_id m.nid m.id) (with_status processing) table
        (λ row k. ground (arith, sub row, sub' row, k)) h)
      ms' (λ row k. k) (λ row k. sub' row (ground arith))

-- The messages of a batch are of the network.
abbrev pub InNetwork : ℕ → List Message → Type 0
InNetwork nid = All (λ m. m.nid ≡ nid)

InNetwork-insert :
    (nid : ℕ) (m : Message) (ms : List Message)
    → m.nid ≡ nid
    → InNetwork nid ms
    → InNetwork nid (insert_by_created_at m ms)
unfolding insert_by_created_at
InNetwork-insert nid m [] n h = (n, tt)
InNetwork-insert nid m (x ∷ ms) n (k, h) = elim (Bool-cases (leb m.created_at x.created_at)) [
  | inl first ↦ rw first (n, (k, h))
  | inr later ↦ rw later (k, InNetwork-insert nid m ms n h)
]

InNetwork-take :
    (nid limit : ℕ) (ms : List Message) → InNetwork nid ms → InNetwork nid (take limit ms)
InNetwork-take nid zero ms h = tt
InNetwork-take nid (suc limit) [] h = tt
InNetwork-take nid (suc limit) (m ∷ ms) (k, h) = (k, InNetwork-take nid limit ms h)

filtered-InNetwork :
    (nid : ℕ) (table : List Message) → InNetwork nid (by_created_at (filter (is_next nid) table))
unfolding by_created_at
filtered-InNetwork nid [] = tt
filtered-InNetwork nid (m ∷ table) = elim (Bool-cases (is_next nid m)) [
  | inl next ↦ rw next (
      InNetwork-insert nid m (by_created_at (filter (is_next nid) table)) (ground (arith, next))
        (filtered-InNetwork nid table))
  | inr other ↦ rw other (filtered-InNetwork nid table)
]

pub batch-InNetwork :
    (nid limit : ℕ) (table : List Message) → InNetwork nid (next_batch nid limit table)
unfolding next_batch
batch-InNetwork nid limit table = InNetwork-take nid limit _ (filtered-InNetwork nid table)

pub handed_out :
    (nid : ℕ) (ms : List Message)
    → InNetwork nid ms
    → InNetwork nid (map (with_status processing) ms)
handed_out nid [] h = tt
handed_out nid (m ∷ ms) (n, h) = (n, handed_out nid ms h)

pub among_handed_out :
    (ms : List Message) (row : Message)
    → among ms row ≡ true
    → among (map (with_status processing) ms) row ≡ true
among_handed_out [] row h = h
among_handed_out (m ∷ ms) row h = ground (arith, among_handed_out ms row)
