-- ===== src/Store/Tables/Keys.antt =====
-- PRIMARY KEY of `deliveries`, and what a keyed UPDATE does to the table.
use relayforge.Prelude.{
  All-append, ◌++◌, all_of-All, ok, refl, Memᴰ, All-mem, update, if◌then◌else◌, arith, [], false,
  true, ◌∙◌, sym, ◌≡◌, All, ◌∷◌, List, Bool,
}
use relayforge.Store.Tables.{check_delivery, Database, update_deliveries, DeliveryRow}
use relayforge.Prelude.Text.{text_eq_iff, text_eq, Text}

-- No two rows have one identifier.
abbrev pub UniqueIds : List DeliveryRow → Type 0
UniqueIds [] = Unit
UniqueIds (d ∷ ds) = All (λ e. text_eq d.id e.id ≡ false) ds × UniqueIds ds

text_eq_sym : (s t : Text) → text_eq s t ≡ true → text_eq t s ≡ true
text_eq_sym s t h = (text_eq_iff t s).1 (sym ((text_eq_iff s t).0 h))

pub UniqueIds-mem :
    (ds : List DeliveryRow) (d e : DeliveryRow)
    → UniqueIds ds
    → Memᴰ d ds
    → Memᴰ e ds
    → text_eq d.id e.id ≡ true
    → d ≡ e
UniqueIds-mem [] d e u i j h = elim i [ ]
UniqueIds-mem (x ∷ xs) d e u (Memᴰ.head a) (Memᴰ.head b) h = a ∙ sym b
UniqueIds-mem (x ∷ xs) d e u (Memᴰ.head a) (Memᴰ.tail j) h =
    let apart = All-mem (λ y. text_eq x.id y.id ≡ false) xs u.0 j in cc (a, apart, h)
UniqueIds-mem (x ∷ xs) d e u (Memᴰ.tail i) (Memᴰ.head b) h =
    let apart = All-mem (λ y. text_eq x.id y.id ≡ false) xs u.0 i in
    let h' = text_eq_sym d.id e.id h in cc (b, apart, h')
UniqueIds-mem (x ∷ xs) d e u (Memᴰ.tail i) (Memᴰ.tail j) h = UniqueIds-mem xs d e u.1 i j h

-- An UPDATE that leaves the identifiers alone keeps them unique.
module _ (p : DeliveryRow → Bool) (f : DeliveryRow → DeliveryRow)
    (keeps : (d : DeliveryRow) → (f d).id ≡ d.id) where
  updated_id : (d : DeliveryRow) → (if p d then f d else d).id ≡ d.id
  updated_id d = ground (arith, keeps d)

  apart-update :
      (d : DeliveryRow) (ds : List DeliveryRow)
      → All (λ e. text_eq d.id e.id ≡ false) ds
      → All (λ e. text_eq (if p d then f d else d).id e.id ≡ false) (update p f ds)
  apart-update d [] h = tt
  apart-update d (x ∷ xs) h = (rw (updated_id d, updated_id x) h.0, apart-update d xs h.1)

  pub UniqueIds-update : (ds : List DeliveryRow) → UniqueIds ds → UniqueIds (update p f ds)
  UniqueIds-update [] u = tt
  UniqueIds-update (d ∷ ds) u = (apart-update d ds u.0, UniqueIds-update ds u.1)

-- An UPDATE whose new rows meet the constraints is not refused.
pub update_deliveries_total :
    (p : DeliveryRow → Bool) (f : DeliveryRow → DeliveryRow) (db : Database)
    → All (λ d. p d ≡ true → check_delivery (f d) ≡ true) db.deliveries
    → update_deliveries p f db ≡ ok (record db { deliveries = update p f db.deliveries })
unfolding update_deliveries
update_deliveries_total p f db h = rw (all_of-All _ db.deliveries (go db.deliveries h)) refl
  where
    go :
        (ds : List DeliveryRow)
        → All (λ d. p d ≡ true → check_delivery (f d) ≡ true) ds
        → All (λ d. (if p d then check_delivery (f d) else true) ≡ true) ds
    go [] h = tt
    go (d ∷ ds) h = (ground (arith, h.0), go ds h.1)

-- A row under a fresh identifier may be appended.
pub UniqueIds-append :
    (ds : List DeliveryRow) (e : DeliveryRow)
    → UniqueIds ds
    → All (λ d. text_eq d.id e.id ≡ false) ds
    → UniqueIds (ds ++ e ∷ [])
UniqueIds-append [] e u h = (tt, tt)
UniqueIds-append (d ∷ ds) e u h = (
  All-append (λ x. text_eq d.id x.id ≡ false) ds (e ∷ []) u.0 (h.0, tt),
  UniqueIds-append ds e u.1 h.1,
)
