-- ===== src/Vfs/Paths.antt =====
-- Paths and their components.
use nwin_os.Common.{
  ◌+◌, ◌<◌, ◌≡◌, refl, sym, ◌∙◌, ap, Bool, true, false, not, ◌&&◌, List, [], ◌∷◌, ◌++◌, ◌==◌,
  length, length-append, append_assoc, append-nil, arith,
}
use nwin_os.Common.Dict.{Str}
use nwin_os.Vfs.{slash, split, is_empty, keep_nonempty, components}

-- A component is not empty and has no slash.
unfoldable pub no_slash : Str → Bool
no_slash [] = true
no_slash (c ∷ s) = not (c == slash) && no_slash s

unfoldable pub are_names : List Str → Bool
are_names [] = true
are_names (p ∷ ps) = not (is_empty p) && no_slash p && are_names ps

-- The absolute path with the given components, without a slash at its end.
unfoldable pub join : List Str → Str
join [] = []
join (p ∷ ps) = (slash ∷ p) ++ join ps

split-append :
    (p rest : Str) → no_slash p ≡ true → split (p ++ rest) ≡ (p ++ (split rest).0, (split rest).1)
unfolding split no_slash
split-append [] rest h = refl
split-append (c ∷ p) rest h =
    let other : (c == slash) ≡ false = ground (arith, h) in
    rw other (ap (λ (r : Str × List Str). (c ∷ r.0, r.1)) (split-append p rest (ground (arith, h))))

split-join : (ps : List Str) → are_names ps ≡ true → split (join ps) ≡ ([], ps)
unfolding split join are_names
split-join [] h = refl
split-join (p ∷ ps) h =
    let whole : split (p ++ join ps) ≡ (p, ps) =
      split-append p (join ps) (ground (arith, h))
      ∙ ap (λ (r : Str × List Str). (p ++ r.0, r.1)) (split-join ps (ground (arith, h)))
      ∙ ap (λ q. (q, ps)) (append-nil p) in
    ap (λ (r : Str × List Str). ([], r.0 ∷ r.1)) whole

keep_names : (ps : List Str) → are_names ps ≡ true → keep_nonempty ps ≡ ps
unfolding keep_nonempty are_names
keep_names [] h = refl
keep_names (p ∷ ps) h =
    let named : is_empty p ≡ false = ground (arith, h) in
    rw named (ap (λ l. p ∷ l) (keep_names ps (ground (arith, h))))

-- The components of a path are read back from the path that is made of them.
pub components-join : (ps : List Str) → are_names ps ≡ true → components (join ps) ≡ ps
unfolding components
components-join ps h = rw (split-join ps h) (keep_names ps h)

pub join-append : (ps qs : List Str) → join (ps ++ qs) ≡ join ps ++ join qs
unfolding join
join-append [] qs = refl
join-append (p ∷ ps) qs =
    ap (λ l. slash ∷ l)
      (ap (λ l. p ++ l) (join-append ps qs) ∙ sym (append_assoc p (join ps) (join qs)))

pub length-join-last :
    (ps : List Str) (p : Str) → length (join (ps ++ (p ∷ []))) ≡ length (join ps) + 1 + length p
unfolding join
length-join-last ps p =
    ap length (join-append ps (p ∷ []))
    ∙ length-append (join ps) (join (p ∷ []))
    ∙ omega (arith, ap (λ (q : Str). length q) (append-nil p))

pub are_names-append :
    (ps qs : List Str) → are_names ps ≡ true → are_names qs ≡ true → are_names (ps ++ qs) ≡ true
unfolding are_names
are_names-append [] qs h h' = h'
are_names-append (p ∷ ps) qs h h' = ground (arith, are_names-append ps qs (ground (arith, h)) h', h)

pub name_nonempty : (p : Str) → are_names (p ∷ []) ≡ true → 0 < length p
unfolding are_names
name_nonempty [] h = ground (arith, h)
name_nonempty (c ∷ p) h = omega arith
