-- ===== src/Dns/Names.antt =====
-- `get_reverse_tuple` of aiomisc/service/dns/store.py, and the names that it is meant for: labels
-- without dots, joined by dots, with or without the final one.
use mathlib.Core.List.{append-nil}
use aiomisc.Base.{◌≡◌, ◌≢◌, refl, ap, ◌∙◌, List, [], ◌∷◌, ◌++◌, reverse, arith, nat_beq_iff, sym}
use aiomisc.Dns.Text.{Str, dot, lstrip, rstrip, strip, split}

-- The labels of a name, the top level first.
unfoldable pub get_reverse_tuple : Str → List Str
get_reverse_tuple zone_name = reverse (split (strip zone_name))

abbrev pub NoDots : Str → Type 0
NoDots [] = Unit
NoDots (c ∷ s) = (c ≢ dot) × NoDots s

abbrev pub IsLabel : Str → Type 0
IsLabel [] = ⊥
IsLabel (c ∷ s) = (c ≢ dot) × NoDots s

abbrev pub AllLabels : List Str → Type 0
AllLabels [] = Unit
AllLabels (l ∷ ls) = IsLabel l × AllLabels ls

-- "www.example.com." of its labels
abbrev pub absolute : List Str → Str
absolute [] = []
absolute (l ∷ ls) = l ++ dot ∷ absolute ls

-- "www.example.com" of its labels, the first one apart
abbrev pub relative : Str → List Str → Str
relative l [] = l
relative l (m ∷ ls) = l ++ dot ∷ relative m ls

NoDots-label : (l : Str) → IsLabel l → NoDots l
NoDots-label [] h = absurd h
NoDots-label (c ∷ l) h = h

split-label : (l : Str) → NoDots l → split l ≡ l ∷ []
unfolding split
split-label [] h = refl
split-label (c ∷ l) h = ground (arith, split-label l h.1, nat_beq_iff c dot)

split-append : (l s : Str) → NoDots l → split (l ++ dot ∷ s) ≡ l ∷ split s
unfolding split
split-append [] s h = refl
split-append (c ∷ l) s h = ground (arith, split-append l s h.1, nat_beq_iff c dot)

split-relative :
    (l : Str) (ls : List Str) → IsLabel l → AllLabels ls → split (relative l ls) ≡ l ∷ ls
split-relative l [] h hs = split-label l (NoDots-label l h)
split-relative l (m ∷ ls) h hs =
    split-append l (relative m ls) (NoDots-label l h)
    ∙ ap (λ r. l ∷ r) (split-relative m ls hs.0 hs.1)

rstrip-append : (l s : Str) → NoDots l → rstrip (l ++ s) ≡ l ++ rstrip s
unfolding rstrip
rstrip-append [] s h = refl
rstrip-append (c ∷ l) s h = ground (arith, rstrip-append l s h.1, nat_beq_iff c dot)

rstrip-dot : (s : Str) → rstrip s ≢ [] → rstrip (dot ∷ s) ≡ dot ∷ rstrip s
unfolding rstrip
rstrip-dot s h = ground arith

relative-ne-nil : (l : Str) (ls : List Str) → IsLabel l → relative l ls ≢ []
relative-ne-nil [] ls h = absurd h
relative-ne-nil (c ∷ l) [] h = λ e. cc
relative-ne-nil (c ∷ l) (m ∷ ls) h = λ e. cc

rstrip_label : (l : Str) → IsLabel l → rstrip l ≡ l
unfolding rstrip
rstrip_label l h =
    ap rstrip (sym (append-nil l)) ∙ rstrip-append l [] (NoDots-label l h) ∙ append-nil l

-- A dot and what follows it survive, if something of the rest does.
rstrip-label-dot :
    (l s t : Str) → IsLabel l → rstrip s ≡ t → t ≢ [] → rstrip (l ++ dot ∷ s) ≡ l ++ dot ∷ t
rstrip-label-dot l s t h e filled =
    rstrip-append l (dot ∷ s) (NoDots-label l h)
    ∙ ap (λ r. l ++ r) (rstrip-dot s (rw e filled) ∙ ap (λ r. dot ∷ r) e)

rstrip-absolute :
    (l : Str) (ls : List Str)
    → IsLabel l
    → AllLabels ls
    → rstrip (absolute (l ∷ ls)) ≡ relative l ls
rstrip-absolute l [] h hs =
    rstrip-append l (dot ∷ []) (NoDots-label l h) ∙ (unfold rstrip in append-nil l)
rstrip-absolute l (m ∷ ls) h hs =
    rstrip-label-dot l (absolute (m ∷ ls)) (relative m ls) h (rstrip-absolute m ls hs.0 hs.1)
      (relative-ne-nil m ls hs.0)

rstrip-relative :
    (l : Str) (ls : List Str) → IsLabel l → AllLabels ls → rstrip (relative l ls) ≡ relative l ls
rstrip-relative l [] h hs = rstrip_label l h
rstrip-relative l (m ∷ ls) h hs =
    rstrip-label-dot l (relative m ls) (relative m ls) h (rstrip-relative m ls hs.0 hs.1)
      (relative-ne-nil m ls hs.0)

lstrip-label : (l s : Str) → IsLabel l → lstrip (l ++ s) ≡ l ++ s
unfolding lstrip
lstrip-label [] s h = absurd h
lstrip-label (c ∷ l) s h = ground (arith, nat_beq_iff c dot)

lstrip-relative : (l : Str) (ls : List Str) → IsLabel l → lstrip (relative l ls) ≡ relative l ls
lstrip-relative l [] h = ap lstrip (sym (append-nil l)) ∙ lstrip-label l [] h ∙ append-nil l
lstrip-relative l (m ∷ ls) h = lstrip-label l (dot ∷ relative m ls) h

-- The key of a name, of labels without dots and not empty, has its labels in reverse order, whether
-- or not the name ends with a dot.
pub get_reverse_tuple-labels :
    (l : Str) (ls : List Str)
    → IsLabel l
    → AllLabels ls
    → (get_reverse_tuple (absolute (l ∷ ls)) ≡ reverse (l ∷ ls))
      × (get_reverse_tuple (relative l ls) ≡ reverse (l ∷ ls))
unfolding get_reverse_tuple strip
get_reverse_tuple-labels l ls h hs = (
  rw (lstrip-label l (dot ∷ absolute ls) h, rstrip-absolute l ls h hs, split-relative l ls h hs),
  rw (lstrip-relative l ls h, rstrip-relative l ls h hs, split-relative l ls h hs),
)
