-- ===== src/Table/Fading.antt =====
-- Statements that only take rows away, or note that they were read: what is left at a key is what
-- was there.
use lytecache.Common.{
  String, Bool, true, false, Option, none, some, ◌≡◌, refl, ◌∙◌, arith, if◌then◌else◌, inl, inr,
}
use lytecache.Table.{Row, Table, select_key, HasPrimaryKey}
use lytecache.Table.Laws.{
  Survives, select_key-update_where, select_key-delete_where, select_key-delete_limit,
}
use lytecache.Table.Trace.{
  SameContent, KeepsContent, Statement, upserting, updating, deleting, limiting, Trace, done, step,
  Trace-HasPrimaryKey,
}

-- What was at a key is gone, or is there with its content; nothing new is there.
abbrev pub Faded : Option Row → Option Row → Type 0
Faded before none = Unit {0}
Faded none (some s) = false ≡ true
Faded (some r) (some s) = SameContent r s

abbrev pub Fades : Table → Table → Type 0
Fades t u = (ns k : String) → Faded (select_key ns k t) (select_key ns k u)

SameContent-trans : (a b c : Row) → SameContent a b → SameContent b c → SameContent a c
SameContent-trans a b c (p, q, r, s) (p', q', r', s') = (p' ∙ p, q' ∙ q, r' ∙ r, s' ∙ s)

pub Faded-refl : (a : Option Row) → Faded a a
Faded-refl none = tt
Faded-refl (some r) = (refl, refl, refl, refl)

pub Faded-trans : (a b c : Option Row) → Faded a b → Faded b c → Faded a c
Faded-trans a b none h k = tt
Faded-trans a none (some r) h k = ground arith
Faded-trans none (some s) (some r) h k = ground arith
Faded-trans (some q) (some s) (some r) h k = SameContent-trans q s r h k

updated-Faded :
    (p : Row → Bool) (set : Row → Row) (a : Option Row)
    → KeepsContent set
    → Faded a (elim a [ none ↦ none | some r ↦ some (if p r then set r else r) ])
updated-Faded p set none k = tt
updated-Faded p set (some r) k = ground (arith, k r)

deleted-Faded :
    (p : Row → Bool) (a : Option Row)
    → Faded a (elim a [ none ↦ none | some r ↦ if p r then none else some r ])
deleted-Faded p none = tt
deleted-Faded p (some r) = ground arith

Survives-Faded : (p : Row → Bool) (a b : Option Row) → Survives p a b → Faded a b
Survives-Faded p a b (inl e) = rw e (Faded-refl a)
Survives-Faded p a b (inr (e, h)) = rw e tt

pub Statement-Fades :
    {ns : String} {t u : Table} → Statement true ns t u → HasPrimaryKey t → Fades t u
Statement-Fades (upserting new set cond x e f k s) h i j = ground (arith, x)
Statement-Fades {t = t} (updating p set w k s c) h i j =
    rw (select_key-update_where i j p set t k) (updated-Faded p set (select_key i j t) (c refl))
Statement-Fades {t = t} (deleting p w) h i j =
    rw (select_key-delete_where i j p t h) (deleted-Faded p (select_key i j t))
Statement-Fades {t = t} (limiting n p w) h i j =
    Survives-Faded p _ _ (select_key-delete_limit n i j p t h)

pub Trace-Fades : {ns : String} {t u : Table} → Trace true ns t u → HasPrimaryKey t → Fades t u
Trace-Fades {t = t} done h i j = Faded-refl (select_key i j t)
Trace-Fades (step a s) h i j =
    Faded-trans _ _ _ (Trace-Fades a h i j) (Statement-Fades s (Trace-HasPrimaryKey a h) i j)
