-- ===== src/Autosave/Files/Ends.antt =====
-- How an action ends, and what the disk holds on the way.
use linux_class.Common.{ℕ, ◌≡◌, refl, true, false, Bool, List, [], ◌∷◌, ◌++◌, All, Bytes, fit}
use linux_class.Autosave.Files.{
  Disk, Reply, works, fails, World, Action, after, answer, call, continue, and_then, same,
  mkdir_all, directories, before_slash, mkdir_parent,
}

-- The disk at a return of 0, at a return of -1, and after each call.
pub record Ends (Good Bad Always : Disk → Type 0) (r : Bool × World) : Type 0 where
  pub good : r.0 ≡ true → Good r.1.disk
  pub bad : r.0 ≡ false → Bad r.1.disk
  pub always : All Always r.1.seen

module _ (Good Bad Always : Disk → Type 0) where
  seen_behind : (ds : List Disk) (d : Disk) → All Always ds → Always d → All Always (ds ++ d ∷ [])
  seen_behind [] d h a = (a, tt)
  seen_behind (x ∷ ds) d (p, h) a = (p, seen_behind ds d h a)

  pub return-Ends : (w : World) → Good w.disk → All Always w.seen → Ends Good Bad Always (true, w)
  return-Ends w g a = record { good = λ e. g; bad = λ e. cc; always = a }

  pub call-Ends :
      (good : Disk → Disk) (bad : ℕ → Disk → Disk) (w : World)
      → Good (good w.disk)
      → Always (good w.disk)
      → ((k : ℕ) → Bad (bad k w.disk) × Always (bad k w.disk))
      → All Always w.seen
      → Ends Good Bad Always (call good bad w)
  unfolding call answer after
  call-Ends good bad w g a f s = go w.replies
    where
      go : (rs : List Reply) → Ends Good Bad Always (answer rs good bad w)
      go [] = record { good = λ e. g; bad = λ e. cc; always = seen_behind w.seen (good w.disk) s a }
      go (works ∷ rs) = record {
        good = λ e. g;
        bad = λ e. cc;
        always = seen_behind w.seen (good w.disk) s a;
      }
      go (fails k ∷ rs) = record {
        good = λ e. cc;
        bad = λ e. (f k).0;
        always = seen_behind w.seen (bad k w.disk) s (f k).1;
      }

-- One action after the other.
pub then-Ends :
    (Middle Good Bad Always : Disk → Type 0) (a b : Action) (w : World)
    → Ends Middle Bad Always (a w)
    → ((v : World) → Middle v.disk → All Always v.seen → Ends Good Bad Always (b v))
    → Ends Good Bad Always (and_then a b w)
unfolding and_then continue
then-Ends Middle Good Bad Always a b w h k = go (a w) h
  where
    go : (r : Bool × World) → Ends Middle Bad Always r → Ends Good Bad Always (continue r b)
    go (true, v) e = k v (e.good refl) e.always
    go (false, v) e = record { good = λ x. cc; bad = e.bad; always = e.always }

-- Making directories leaves the files alone.
mkdir_all-Ends :
    (P Always : Disk → Type 0) (dirs : List Bytes) (w : World)
    → ((d : Disk) → P d → Always d)
    → P w.disk
    → All Always w.seen
    → Ends P P Always (mkdir_all dirs w)
unfolding mkdir_all
mkdir_all-Ends P Always [] w i p s = return-Ends P P Always w p s
mkdir_all-Ends P Always (dir ∷ dirs) w i p s =
    then-Ends P P P Always (call same (λ k. same)) (mkdir_all dirs) w
      (call-Ends P P Always same (λ k. same) w p (i w.disk p) (λ k. (p, i w.disk p)) s)
      (λ v q t. mkdir_all-Ends P Always dirs v i q t)

pub mkdir_parent-Ends :
    (P Always : Disk → Type 0) (path : Bytes) (w : World)
    → ((d : Disk) → P d → Always d)
    → P w.disk
    → All Always w.seen
    → Ends P P Always (mkdir_parent path w)
unfolding mkdir_parent
mkdir_parent-Ends P Always path w i p s =
    mkdir_all-Ends P Always (directories (before_slash (fit 4096 path))) w i p s
