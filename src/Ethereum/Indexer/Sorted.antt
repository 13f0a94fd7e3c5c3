-- ===== src/Ethereum/Indexer/Sorted.antt =====
-- The order of the messages that the outbox's indexer gives to the indexing loop of
-- rust/abacus-base/src/contract_sync/outbox.rs.
use mathlib.Core.Logic.{∥∥₁_elim}
use mathlib.Core.Logic.Or
use native.Mathlib.Bridge.{le_prop}
use mathlib.Core.List.{
  Perm, Nodup, Nodup-cons, Nodup-nil, Mem, mem-cons, mem-cons_self, not-mem-nil,
}
use mathlib.Core.List.Permᴰ.{Permᴰ}
use mathlib.Core.List.Perm
use ethmexico.Base.{
  ℕ, zero, suc, ◌+◌, ◌-◌, ◌^◌, drop, length-drop, le→ltb, ◌<◌, ◌≤◌, ◌≡◌, ◌≢◌, refl, sym, ap, subst,
  ◌∙◌, leb, le→leb, lt→ltb, u32_max, if◌then◌else◌, some, List, [], ◌∷◌, map, length, All, arith,
}
use ethmexico.Types.{RawCommittedMessage}
use ethmexico.ContractSync.{above, valid, valid_continuation, filter_indexed}
use ethmexico.ContractSync.Continuation.{Consecutive, IsIndexed, valid_continuation_iff}
use ethmexico.Ethereum.{ok}
use ethmexico.Ethereum.Indexer.{
  DispatchEvent, insert_by, sort_by, by_leaf_index, convert_all, message_of, fetch_sorted_messages,
}

-- The events of the leaves from `first` on, one after the other.
abbrev pub Leaves : ℕ → List DispatchEvent → Type 0
Leaves first [] = Unit
Leaves first (e ∷ es) = (e.leaf_index ≡ first) × Leaves (suc first) es

abbrev leaf_index : DispatchEvent → ℕ
leaf_index e = e.leaf_index

abbrev pub raw : DispatchEvent → RawCommittedMessage
raw e = record { leaf_index = e.leaf_index; message = e.message }

insert_step :
    (e x : DispatchEvent) (l : List DispatchEvent)
    → insert_by by_leaf_index e (x ∷ l)
      ≡ (if leb e.leaf_index x.leaf_index then e ∷ (x ∷ l) else x ∷ insert_by by_leaf_index e l)
unfolding insert_by
insert_step e x l = refl

insert_nil : (e : DispatchEvent) → insert_by by_leaf_index e [] ≡ e ∷ []
unfolding insert_by
insert_nil e = refl

-- Two events of different leaves are inserted in either order.
insert_comm :
    (a b : DispatchEvent) (l : List DispatchEvent)
    → a.leaf_index ≢ b.leaf_index
    → insert_by by_leaf_index a (insert_by by_leaf_index b l)
      ≡ insert_by by_leaf_index b (insert_by by_leaf_index a l)
insert_comm a b [] ne =
    ground (arith, insert_nil a, insert_nil b, insert_step a b [], insert_step b a [])
insert_comm a b (x ∷ l) ne = ground (
  arith,
  insert_step a x l,
  insert_step b x l,
  insert_step a b (x ∷ l),
  insert_step b a (x ∷ l),
  insert_step a x (insert_by by_leaf_index b l),
  insert_step b x (insert_by by_leaf_index a l),
  insert_comm a b l ne,
)

sort_perm :
    {l l' : List DispatchEvent}
    → Permᴰ l l'
    → Nodup (map leaf_index l)
    → sort_by by_leaf_index l ≡ sort_by by_leaf_index l'
unfolding sort_by
sort_perm Permᴰ.nil n = refl
sort_perm (Permᴰ.cons {a} {b} {l₁} {l₂} e p) n =
    ap (insert_by by_leaf_index a) (sort_perm p (Nodup-cons.0 n).1)
    ∙ ap (λ x. insert_by by_leaf_index x (sort_by by_leaf_index l₂)) e
sort_perm (Permᴰ.swap {a} {b} {a'} {b'} {l} e e') n =
    insert_comm a b (sort_by by_leaf_index l) (λ same.
      (Nodup-cons.0 n).0 (subst (λ x. Mem x (map leaf_index (b ∷ l))) (sym same) mem-cons_self))
    ∙ ap (λ x. insert_by by_leaf_index x (insert_by by_leaf_index a (sort_by by_leaf_index l))) e'
    ∙ ap (λ x. insert_by by_leaf_index a' (insert_by by_leaf_index x (sort_by by_leaf_index l))) e
sort_perm (Permᴰ.trans p q) n =
    sort_perm p n ∙ sort_perm q (Perm.nodup (Perm.map leaf_index ∣ p ∣₁) n)

-- Leaves one after the other are in order, and are different.
sort_Leaves : (first : ℕ) (l : List DispatchEvent) → Leaves first l → sort_by by_leaf_index l ≡ l
unfolding sort_by
sort_Leaves first [] h = refl
sort_Leaves first (a ∷ []) h = insert_nil a
sort_Leaves first (a ∷ (b ∷ l)) (ha, (hb, h)) =
    ap (insert_by by_leaf_index a) (sort_Leaves (suc first) (b ∷ l) (hb, h))
    ∙ insert_step a b l
    ∙ ap (λ t. if t then a ∷ (b ∷ l) else b ∷ insert_by by_leaf_index a l)
        (le→leb a.leaf_index b.leaf_index (omega (arith, ha, hb)))

Leaves-ge :
    (first x : ℕ) (l : List DispatchEvent) → Leaves first l → Mem x (map leaf_index l) → first ≤ x
Leaves-ge first x [] h m = absurd (not-mem-nil m)
Leaves-ge first x (a ∷ l) (ha, h) m =
    Or.elim le_prop (mem-cons.0 m) (λ e. omega (arith, e, ha))
      (λ later. omega (arith, Leaves-ge (suc first) x l h later))

Leaves-Nodup : (first : ℕ) (l : List DispatchEvent) → Leaves first l → Nodup (map leaf_index l)
Leaves-Nodup first [] h = Nodup-nil
Leaves-Nodup first (a ∷ l) (ha, h) = Nodup-cons.1 (
  (λ m. absurd (omega (arith, ha, Leaves-ge (suc first) a.leaf_index l h m))),
  Leaves-Nodup (suc first) l h,
)

convert-Leaves :
    (first : ℕ) (l : List DispatchEvent)
    → Leaves first l
    → first + length l ≤ 2 ^ 32
    → convert_all message_of l ≡ ok (map raw l)
unfolding message_of
convert-Leaves first [] h fits = refl
convert-Leaves first (a ∷ l) (ha, h) fits =
    rw (lt→ltb a.leaf_index (2 ^ 32) (omega (arith, ha)))
      (rw (convert-Leaves (suc first) l h (omega arith)) refl)

-- Events in any order are given in the order of their leaves.
fetch-Leaves :
    (first : ℕ) (l es : List DispatchEvent)
    → Leaves first l
    → first + length l ≤ 2 ^ 32
    → Perm es l
    → fetch_sorted_messages (some es) ≡ ok (map raw l)
unfolding fetch_sorted_messages
fetch-Leaves first l es h fits p =
    ap (convert_all message_of) (
      ∥∥₁_elim p (hlevel)
        (λ q. sort_perm q (Perm.nodup (Perm.map leaf_index (Perm.symm p)) (Leaves-Nodup first l h)))
      ∙ sort_Leaves first l h)
    ∙ convert-Leaves first l h fits

above-all :
    (first last : ℕ) (l : List DispatchEvent)
    → last < first
    → Leaves first l
    → above last (map raw l) ≡ map raw l
unfolding above
above-all first last [] lt h = refl
above-all first last (a ∷ l) lt (ha, h) =
    rw (lt→ltb last a.leaf_index (omega (arith, ha)))
      (ap (◌∷◌ (raw a)) (above-all (suc first) last l (omega arith) h))

above-Leaves :
    (k first last : ℕ) (l : List DispatchEvent)
    → first + k ≡ suc last
    → Leaves first l
    → above last (map raw l) ≡ map raw (drop k l)
unfolding above
above-Leaves zero first last l e h = above-all first last l (omega arith) h
above-Leaves (suc k) first last [] e h = refl
above-Leaves (suc k) first last (a ∷ l) e (ha, h) =
    rw (le→ltb last a.leaf_index (omega (arith, ha)))
      (above-Leaves k (suc first) last l (omega arith) h)

Leaves-drop :
    (k first : ℕ) (l : List DispatchEvent) → Leaves first l → Leaves (first + k) (drop k l)
Leaves-drop zero first l h = subst (λ i. Leaves i l) (omega arith) h
Leaves-drop (suc k) first [] h = tt
Leaves-drop (suc k) first (a ∷ l) (ha, h) =
    subst (λ i. Leaves i (drop k l)) (omega arith) (Leaves-drop k (suc first) l h)

Leaves-Consecutive :
    (first : ℕ) (l : List DispatchEvent)
    → Leaves first l
    → first + length l ≤ u32_max
    → Consecutive first (map raw l) × All IsIndexed (map raw l)
unfolding Consecutive
Leaves-Consecutive first [] h fits = (tt, tt)
Leaves-Consecutive first (a ∷ l) (ha, h) fits =
    let (c, i) = Leaves-Consecutive (suc first) l h (omega arith) in
    ((ha, c), (omega (arith, ha), i))

valid_next :
    (last : ℕ) (l : List DispatchEvent)
    → Leaves (suc last) l
    → suc last + length l ≤ u32_max
    → 0 < length l
    → valid_continuation (some last) (map raw l) ≡ valid
valid_next last [] h fits pos = absurd (omega arith)
valid_next last (a ∷ l) (ha, h) fits pos =
    let (c, i) = Leaves-Consecutive (suc last) (a ∷ l) (ha, h) fits in
    (valid_continuation_iff last (raw a) (map raw l) (omega arith) i (omega (arith, ha))).1 c

-- Where the dispatch events of the blocks are, in whatever order, those of the leaves from `first` on,
-- one for each, up to some leaf after the last one that is known and below `u32::MAX`, and `first` is
-- not after the next leaf: the indexer answers with no panic, what the loop keeps of the answer is the
-- messages of the leaves after the last known one, in order, and they are a valid continuation.
pub fetch_sorted_messages-valid :
    (first last : ℕ) (l es : List DispatchEvent)
    → Leaves first l
    → Perm es l
    → first ≤ suc last
    → suc last < first + length l
    → first + length l ≤ u32_max
    → (ms : List RawCommittedMessage) × (fetch_sorted_messages (some es) ≡ ok ms)
      × (filter_indexed (some last) ms ≡ map raw (drop (suc last - first) l))
      × (valid_continuation (some last) (filter_indexed (some last) ms) ≡ valid)
fetch_sorted_messages-valid first last l es h p low high fits =
    let k = suc last - first in
    let kept : above last (map raw l) ≡ map raw (drop k l) =
      above-Leaves k first last l (omega arith) h in
    (
      map raw l,
      fetch-Leaves first l es h (omega arith) p,
      kept,
      rw kept (
          valid_next last (drop k l)
            (subst (λ i. Leaves i (drop k l)) (omega arith) (Leaves-drop k first l h))
            (omega (arith, length-drop k l)) (omega (arith, length-drop k l))),
    )
