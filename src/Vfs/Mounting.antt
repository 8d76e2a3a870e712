-- ===== src/Vfs/Mounting.antt =====
-- What a mount does to the resolution of paths.
use nwin_os.Common.{
  ◌+◌, ◌<◌, ◌≡◌, refl, sym, ◌∙◌, ap, Bool, true, false, inl, inr, Option, none, some, List, [], ◌∷◌,
  ◌++◌, length, length-append, append_assoc, append-nil, Bool-cases, Option-cases, arith,
}
use nwin_os.Common.Dict.{Str, same, same→eq, get-insert_self, get-insert_ne, get-remove_self}
use nwin_os.Vfs.{
  Node, Driver, is_dir, MountTable, mount, get_mount, unmount, slash, components, or_else, enter,
  resolve_from, resolve_path,
}
use mathlib.Core.Option.{some-injective}
use nwin_os.Vfs.Paths.{
  are_names, join, components-join, join-append, length-join-last, are_names-append, name_nonempty,
}

-- A component is entered only from a directory.
abbrev pick : Bool → Option Node → Option Node
pick false o = none
pick true o = o

abbrev after {ℓ} : {A : Type ℓ} → (Node → Option A) → Option Node → Option A
after continue none = none
after continue (some node) = continue node

module _ (driver : Driver) where
  resolve_step :
      (mounts : MountTable) (current : Node) (path p : Str) (ps : List Str)
      → resolve_from driver mounts current path (p ∷ ps)
        ≡ after
            (λ n. resolve_from driver mounts n (path ++ (slash ∷ p)) ps)
            (pick (is_dir driver current) (enter driver mounts current (path ++ (slash ∷ p)) p))
  unfolding resolve_from
  resolve_step mounts current path p ps = elim (Bool-cases (is_dir driver current)) [
    | inr file ↦ rw file refl
    | inl dir ↦ rw dir (elim (Option-cases (enter driver mounts current (path ++ (slash ∷ p)) p)) [
      | inl gone ↦ rw gone refl
      | inr (n, found) ↦ rw found refl
    ])
  ]

  -- Resolution goes component by component: a longer path is resolved from where the shorter one ends.
  pub resolve_from-append :
      (mounts : MountTable) (current : Node) (path : Str) (ps qs : List Str) (node : Node)
      → resolve_from driver mounts current path ps ≡ some node
      → resolve_from driver mounts current path (ps ++ qs)
        ≡ resolve_from driver mounts node (path ++ join ps) qs
  unfolding resolve_from join
  resolve_from-append mounts current path [] qs node e =
      let same_node : current ≡ node = some-injective _ _ e in rw (same_node, append-nil path) refl
  resolve_from-append mounts current path (p ∷ ps) qs node e =
      resolve_step mounts current path p (ps ++ qs)
      ∙ go (λ n h. resolve_from-append mounts n (path ++ (slash ∷ p)) ps qs node h) _
          (sym (resolve_step mounts current path p ps) ∙ e)
      ∙ ap (λ q. resolve_from driver mounts node q qs) (append_assoc path (slash ∷ p) (join ps))
    where
      go :
          ((n : Node)
            → resolve_from driver mounts n (path ++ (slash ∷ p)) ps ≡ some node
            → resolve_from driver mounts n (path ++ (slash ∷ p)) (ps ++ qs)
              ≡ resolve_from driver mounts node ((path ++ (slash ∷ p)) ++ join ps) qs)
          → (o : Option Node)
          → after (λ n. resolve_from driver mounts n (path ++ (slash ∷ p)) ps) o ≡ some node
          → after (λ n. resolve_from driver mounts n (path ++ (slash ∷ p)) (ps ++ qs)) o
            ≡ resolve_from driver mounts node ((path ++ (slash ∷ p)) ++ join ps) qs
      go rec none h = ground (arith, h)
      go rec (some n) h = rec n h

  enter_unmounted :
      (mounts : MountTable) (target : Str) (new current : Node) (path p : Str)
      → same target path ≡ false
      → enter driver (mount mounts target new) current path p ≡ enter driver mounts current path p
  unfolding enter
  enter_unmounted mounts target new current path p ne =
      rw (get-insert_ne target path new mounts ne, enter) refl

  shorter : (target path : Str) → length path < length target → same target path ≡ false
  shorter target path h = elim (Bool-cases (same target path)) [
    | inl e ↦ absurd (omega (arith, h, ap (λ (s : Str). length s) (same→eq target path e)))
    | inr ne ↦ ne
  ]

  -- A mount on a path that is longer than all that are asked for is not seen.
  unaffected :
      (mounts : MountTable) (target : Str) (new current : Node) (path : Str) (ps : List Str)
      → length (path ++ join ps) < length target
      → resolve_from driver (mount mounts target new) current path ps
        ≡ resolve_from driver mounts current path ps
  unfolding resolve_from join
  unaffected mounts target new current path [] h = refl
  unaffected mounts target new current path (p ∷ ps) h =
      let path' = path ++ (slash ∷ p) in
      let whole = ap (λ (s : Str). length s) (append_assoc path (slash ∷ p) (join ps)) in
      let here : length path' < length target =
        omega (arith, h, whole, length-append path' (join ps)) in
      resolve_step (mount mounts target new) current path p ps
      ∙ ap
          (λ o.
            after (λ n. resolve_from driver (mount mounts target new) n path' ps)
              (pick (is_dir driver current) o))
          (enter_unmounted mounts target new current path' p (shorter target path' here))
      ∙ go (λ n. unaffected mounts target new n path' ps (omega (arith, h, whole)))
          (pick (is_dir driver current) (enter driver mounts current path' p))
      ∙ sym (resolve_step mounts current path p ps)
    where
      go :
          ((n : Node)
            → resolve_from driver (mount mounts target new) n (path ++ (slash ∷ p)) ps
              ≡ resolve_from driver mounts n (path ++ (slash ∷ p)) ps)
          → (o : Option Node)
          → after (λ n. resolve_from driver (mount mounts target new) n (path ++ (slash ∷ p)) ps) o
            ≡ after (λ n. resolve_from driver mounts n (path ++ (slash ∷ p)) ps) o
      go rec none = refl
      go rec (some n) = rec n

  enter_mounted :
      (mounts : MountTable) (target : Str) (new current : Node) (p : Str)
      → enter driver (mount mounts target new) current target p ≡ some new
  unfolding enter
  enter_mounted mounts target new current p = rw (get-insert_self target new mounts, enter) refl

  -- The last component, at a mount.
  arrive :
      (mounts : MountTable) (target : Str) (new parent : Node) (path p : Str)
      → path ++ (slash ∷ p) ≡ target
      → is_dir driver parent ≡ true
      → resolve_from driver (mount mounts target new) parent path (p ∷ []) ≡ some new
  unfolding resolve_from
  arrive mounts target new parent path p e d =
      rw (d, e) (rw (enter_mounted mounts target new parent p) refl)

  -- A driver's root that is mounted at a path is what the path resolves to, whatever was there, if the
  -- path without its last component resolves to a directory. The components are names: not empty and
  -- without a slash. Taking the mount away empties the place in the table.
  pub mount_resolves :
      (mounts : MountTable) (vfs_root new parent : Node) (ps : List Str) (p target : Str)
      → are_names ps ≡ true
      → are_names (p ∷ []) ≡ true
      → target ≡ join (ps ++ (p ∷ []))
      → resolve_path driver mounts vfs_root (join ps) ≡ some parent
      → is_dir driver parent ≡ true
      → (resolve_path driver (mount mounts target new) vfs_root target ≡ some new)
        × (get_mount (unmount (mount mounts target new) target).1 target ≡ none)
  unfolding resolve_path unmount join
  mount_resolves mounts vfs_root new parent ps p target names name t e d =
      let long : length target ≡ length (join ps) + 1 + length p =
        ap (λ (s : Str). length s) t ∙ length-join-last ps p in
      let root = or_else (get_mount mounts (slash ∷ [])) vfs_root in
      let at_root : get_mount (mount mounts target new) (slash ∷ [])
          ≡ get_mount mounts (slash ∷ []) =
        get-insert_ne target (slash ∷ []) new mounts
          (shorter target (slash ∷ []) (omega (arith, long, name_nonempty p name))) in
      let all : components target ≡ ps ++ (p ∷ []) =
        ap components t
        ∙ components-join (ps ++ (p ∷ [])) (are_names-append ps (p ∷ []) names name) in
      let first : resolve_from driver mounts root [] ps ≡ some parent =
        ap (resolve_from driver mounts root []) (sym (components-join ps names)) ∙ e in
      let first' = unaffected mounts target new root [] ps (omega (arith, long)) ∙ first in
      let last : join ps ++ (slash ∷ p) ≡ target =
        ap (λ q. join ps ++ (slash ∷ q)) (sym (append-nil p))
        ∙ sym (join-append ps (p ∷ []))
        ∙ sym t in
      (
        rw (at_root, all)
            (resolve_from-append (mount mounts target new) root [] ps (p ∷ []) parent first'
              ∙ arrive mounts target new parent (join ps) p last d),
        get-remove_self target (mount mounts target new),
      )
