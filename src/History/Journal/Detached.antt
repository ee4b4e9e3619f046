-- ===== src/History/Journal/Detached.antt =====
-- src/history.rs: the pending gaps that the writer has taken, before they join the reader's.
use vivado_server.Base.{ℕ, ◌+◌, ◌≡◌, refl, true, ◌||◌, List, [], ◌∷◌, ◌++◌, arith}
use vivado_server.History.{Gap, gap}
use vivado_server.History.Gaps.{covers, gap-covers}
use vivado_server.History.Gaps.Below.{Below, gap-Below}
use vivado_server.History.Journal.Retained.{Event, Reader, move_pending}
use vivado_server.History.Journal.Kept.{Kept, Kept-refl, Kept-trans}
use vivado_server.History.Journal.Accounts.{Accounts}

-- The reader, with the gaps that are on their way to it.
abbrev pub with_gaps : List Gap → Reader → Reader
with_gaps gaps r = record r { gaps = gaps ++ r.gaps }

pub covers-append : (q : ℕ) (a b : List Gap) → covers q (a ++ b) ≡ (covers q a || covers q b)
covers-append q [] b = refl
covers-append q (g ∷ a) b = ground (arith, covers-append q a b)

Below-append : (n : ℕ) (a b : List Gap) → Below n a → Below n b → Below n (a ++ b)
Below-append n [] b v w = w
Below-append n (g ∷ a) b (l, v) w = (l, Below-append n a b v w)

Below-split : (n : ℕ) (a b : List Gap) → Below n (a ++ b) → Below n a × Below n b
Below-split n [] b v = (tt, v)
Below-split n (g ∷ a) b (l, v) = let (x, y) = Below-split n a b v in ((l, x), y)

pub detach-Accounts :
    (waiting : List Event) (p : ℕ) (pending : List Gap) (r : Reader)
    → Accounts waiting p pending r
    → Accounts waiting p [] (with_gaps pending r)
detach-Accounts waiting p pending r a = record {
  complete = λ q l m. ground (arith, a.complete q l m, covers-append q pending r.gaps);
  rising = a.rising;
  below = Below-append p pending r.gaps a.pending_below a.below;
  pending_below = tt;
  ordered = a.ordered;
  behind = a.behind;
  weighed = a.weighed;
}

gap_joined : Gap → Reader → Reader
gap_joined g r = record r {
  gaps = gap r.gaps (g.after_seq + 1) g.through_seq g.reason;
  is_partial = true;
}

first-Kept :
    (g : Gap) (gaps : List Gap) (r : Reader)
    → Kept (with_gaps (g ∷ gaps) r) (with_gaps gaps (gap_joined g r))
unfolding gap_joined
first-Kept g gaps r = record {
  cursor = refl;
  knows = λ q l h. ground (
    arith,
    h,
    l,
    covers-append q gaps r.gaps,
    covers-append q gaps (gap r.gaps (g.after_seq + 1) g.through_seq g.reason),
    gap-covers q (g.after_seq + 1) g.through_seq g.reason r.gaps,
  );
  fewer = λ q h. h;
  ordered = λ b v. v;
  below = λ n h (l, v).
      let (x, y) = Below-split n gaps r.gaps v in
      Below-append n gaps (gap r.gaps (g.after_seq + 1) g.through_seq g.reason) x
        (gap-Below n (g.after_seq + 1) g.through_seq g.reason r.gaps l y);
  weighed = λ w. w;
}

pub move_pending-Kept :
    (gaps : List Gap) (r : Reader) → Kept (with_gaps gaps r) (move_pending gaps r)
unfolding move_pending gap_joined
move_pending-Kept [] r = Kept-refl r
move_pending-Kept (g ∷ gaps) r =
    Kept-trans (with_gaps (g ∷ gaps) r) (with_gaps gaps (gap_joined g r))
      (move_pending gaps (gap_joined g r)) (first-Kept g gaps r)
      (move_pending-Kept gaps (gap_joined g r))
