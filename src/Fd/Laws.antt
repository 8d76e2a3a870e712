-- ===== src/Fd/Laws.antt =====
-- What a task may rely on of its descriptor table.
use nwin_os.Common.{
  ℕ, ◌≤◌, ◌<◌, ◌≡◌, ◌≢◌, refl, false, none, some, List, [], ◌∷◌, arith, ◌⊎◌, inl, inr, dec_lt,
}
use nwin_os.Common.Map
use nwin_os.Common.Map.{is_some, get-insert, get-remove}
use nwin_os.Fd.{
  FileDescriptor, stdin, stdout, stderr, FdTable, new, get_mut, insert, close, FdCall, opens,
  closes, run,
}

-- The standard streams are open, and no descriptor from `next_fd` on is.
pub record IsValid (t : FdTable) : Type 0 where
  pub in_0 : Map.get 0 t.descriptors ≡ some stdin
  pub out_1 : Map.get 1 t.descriptors ≡ some stdout
  pub err_2 : Map.get 2 t.descriptors ≡ some stderr
  pub past_streams : 3 ≤ t.next_fd
  pub unused : (fd : ℕ) → t.next_fd ≤ fd → Map.get fd t.descriptors ≡ none

pub new-IsValid : IsValid new
unfolding new Map.get
new-IsValid = record {
  in_0 = refl;
  out_1 = refl;
  err_2 = refl;
  past_streams = omega arith;
  unused = λ fd h. ground arith;
}

pub insert-IsValid : (t : FdTable) (file : FileDescriptor) → IsValid t → IsValid (insert t file).1
unfolding insert
insert-IsValid t file v = record {
  in_0 = ground (arith, get-insert t.next_fd 0 file t.descriptors);
  out_1 = ground (arith, get-insert t.next_fd 1 file t.descriptors);
  err_2 = ground (arith, get-insert t.next_fd 2 file t.descriptors);
  past_streams = omega (arith, v.past_streams);
  unused = λ fd h. ground (arith, get-insert t.next_fd fd file t.descriptors, v.unused fd);
}

pub close-IsValid : (t : FdTable) (fd : ℕ) → IsValid t → IsValid (close t fd).1
unfolding close
close-IsValid t fd v = record {
  in_0 = ground (arith, get-remove fd 0 t.descriptors);
  out_1 = ground (arith, get-remove fd 1 t.descriptors);
  err_2 = ground (arith, get-remove fd 2 t.descriptors);
  past_streams = ground arith;
  unused = λ fd' h. ground (arith, get-remove fd fd' t.descriptors, v.unused fd');
}

-- Whatever a task opens and closes, its standard streams stay open at 0, 1 and 2 and no descriptor
-- from `next_fd` on is in use.
pub run-IsValid : (t : FdTable) (calls : List FdCall) → IsValid t → IsValid (run t calls)
unfolding run
run-IsValid t [] v = v
run-IsValid t (opens file ∷ calls) v = run-IsValid (insert t file).1 calls (insert-IsValid t file v)
run-IsValid t (closes fd ∷ calls) v = run-IsValid (close t fd).1 calls (close-IsValid t fd v)

-- `insert` returns a descriptor past the standard streams that was not in use; it then denotes the
-- file, and every other descriptor is as before.
pub insert_lem :
    (t : FdTable) (file : FileDescriptor)
    → IsValid t
    → let (fd, t') = insert t file in
      (3 ≤ fd)
      × (get_mut t fd ≡ none)
      × (get_mut t' fd ≡ some file)
      × ((other : ℕ) → other ≢ fd → get_mut t' other ≡ get_mut t other)
unfolding insert get_mut
insert_lem t file v = (
  v.past_streams,
  v.unused t.next_fd (omega arith),
  ground (arith, get-insert t.next_fd t.next_fd file t.descriptors),
  λ other ne. ground (arith, get-insert t.next_fd other file t.descriptors),
)

-- `close` says whether it removed something. It refuses the standard streams; past those the
-- descriptor is closed afterwards, and it says true exactly when it was open. No other changes.
pub close_lem :
    (t : FdTable) (fd : ℕ)
    → let (done, t') = close t fd in
      ((fd < 3) × (done ≡ false) × (t' ≡ t))
      ⊎ ((3 ≤ fd)
          × (done ≡ is_some (get_mut t fd))
          × (get_mut t' fd ≡ none)
          × ((other : ℕ) → other ≢ fd → get_mut t' other ≡ get_mut t other))
unfolding close get_mut
close_lem t fd = elim (dec_lt fd 3) [
  | yes low ↦ inl (low, ground arith, ground arith)
  | no high ↦ inr (
    omega arith,
    ground arith,
    ground (arith, get-remove fd fd t.descriptors),
    λ other ne. ground (arith, get-remove fd other t.descriptors),
  )
]

-- A descriptor below `next_fd` that is closed stays closed, whatever is opened and closed later:
-- numbers are never given out twice.
pub run_stays_closed :
    (t : FdTable) (calls : List FdCall) (fd : ℕ)
    → fd < t.next_fd
    → get_mut t fd ≡ none
    → get_mut (run t calls) fd ≡ none
unfolding run get_mut
run_stays_closed t [] fd h closed = closed
run_stays_closed t (opens file ∷ calls) fd h closed =
    run_stays_closed (insert t file).1 calls fd (unfold insert in omega arith)
      (unfold insert in ground (arith, get-insert t.next_fd fd file t.descriptors))
run_stays_closed t (closes fd' ∷ calls) fd h closed =
    run_stays_closed (close t fd').1 calls fd (unfold close in ground arith)
      (unfold close in ground (arith, get-remove fd' fd t.descriptors))
