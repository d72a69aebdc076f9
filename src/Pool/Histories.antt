-- ===== src/Pool/Histories.antt =====
-- The moves of the threads, and the invariant of the stack.
use aethalloc.Prelude.{
  ℕ, ◌+◌, ◌<◌, ◌≡◌, ◌≢◌, refl, ◌∙◌, sym, subst, ap, arith, true, List, [], ◌∷◌, ◌++◌, ◌==◌,
  All-append, All-append_left, All-append_right,
}
use aethalloc.Pool.{store_next}
use aethalloc.Pool.Chains.{one_of, one_of_self, count, Chain, Chain-write_link}
use aethalloc.Pool.Threads.{
  Pushing, loaded, linked, idle, System, node_of, Move, load_push, link_push, swap_push, retry_push,
  load_pop, read_pop, swap_pop, retry_pop, History, opened, moved, outside,
}
use aethalloc.Pool.Conserved.{
  Links, Intact, Distinct, swapped, not_swapped, in_push, count-append, in_push-append,
  All-Links-store_next, Pops-store_next, Pops-more, load_pop-Pops,
}

module _ {nodes : List ℕ} (distinct : Distinct nodes) where
  -- A node in a push is in no stack, and is pushed once.
  pushed_once :
      (s : System) (left right : List Pushing) (p : Pushing) (t : Intact nodes s)
      → s.pushing ≡ left ++ p ∷ right
      → (count (node_of p) t.held ≡ 0)
        × (in_push (node_of p) left ≡ 0)
        × (in_push (node_of p) right ≡ 0)
        × (node_of p ≢ 0)
  pushed_once s left right p t e =
      let n = node_of p in
      let sum = λ (a : ℕ). ap (in_push a) e ∙ in_push-append a left (p ∷ right) in
      let one = one_of_self n in
      let all = t.kept n in
      let once = distinct.once n in
      (
        omega (arith, sum n, one, all, once),
        omega (arith, sum n, one, all, once),
        omega (arith, sum n, one, all, once),
        λ null.
            omega (arith, sum n, one, all, distinct.not_null, ap (λ (a : ℕ). count a nodes) null),
      )

  Move-Intact : {s s' : System} → Intact nodes s → Move s s' → Intact nodes s'
  unfolding store_next
  Move-Intact t (load_push left node right {s} {ps} {q}) = record {
    held = t.held;
    chain = t.chain;
    kept =
        λ a. omega (arith, t.kept a, count-append a left (node ∷ right), count-append a left right);
    links = (tt, t.links);
    pops = t.pops;
  }
  Move-Intact t (link_push left node old right {s} {q} {free}) =
      let (apart, on_left, on_right, some_node) =
        pushed_once _ left right (loaded node old) t refl in
      let before = All-append_left (Links s) left (loaded node old ∷ right) t.links in
      let after = All-append_right (Links s) left (loaded node old ∷ right) t.links in
      let own : (node == node) ≡ true = ground arith in
      record {
        held = t.held;
        chain = Chain-write_link s.links node old s.head t.held apart t.chain;
        kept = λ a. omega (
          arith,
          t.kept a,
          in_push-append a left (loaded node old ∷ right),
          in_push-append a left (linked node old ∷ right),
        );
        links =
            All-append (Links (store_next node old s)) left (linked node old ∷ right)
              (All-Links-store_next node old s left on_left before)
              (rw own refl, All-Links-store_next node old s right on_right after.1);
        pops = Pops-store_next node old s t.held q apart t.pops;
      }
  Move-Intact t (swap_push left node old right spurious {s} {s'} {q} {free} e) =
      let (apart, on_left, on_right, some_node) =
        pushed_once _ left right (linked node old) t refl in
      let (at, same) = swapped spurious old node s s' e in
      let before = All-append_left (Links s) left (linked node old ∷ right) t.links in
      let after = All-append_right (Links s) left (linked node old ∷ right) t.links in
      subst
        (λ r.
          Intact nodes (record { stack = r; pushing = left ++ right; popping = q; free = free }))
        same
        (record {
          held = node ∷ t.held;
          chain = (refl, some_node, rw (after.0, sym at) t.chain);
          kept = λ a. omega (
            arith,
            t.kept a,
            in_push-append a left (linked node old ∷ right),
            in_push-append a left right,
          );
          links = All-append (Links s) left right before after.1;
          pops = Pops-more s node node t.held q t.pops;
        })
  Move-Intact t (retry_push left node old right spurious {s} {s'} {q} {free} e) =
      let same = not_swapped spurious old node s s' e in
      let before = All-append_left (Links s) left (linked node old ∷ right) t.links in
      let after = All-append_right (Links s) left (linked node old ∷ right) t.links in
      subst
        (λ r. Intact nodes (record {
          stack = r;
          pushing = left ++ loaded node r.head ∷ right;
          popping = q;
          free = free;
        }))
        same
        (record {
          held = t.held;
          chain = t.chain;
          kept = λ a. omega (
            arith,
            t.kept a,
            in_push-append a left (linked node old ∷ right),
            in_push-append a left (loaded node s.head ∷ right),
          );
          links = All-append (Links s) left (loaded node s.head ∷ right) before (tt, after.1);
          pops = t.pops;
        })
  Move-Intact t (load_pop {s} full) = record {
    held = t.held;
    chain = t.chain;
    kept = t.kept;
    links = t.links;
    pops = load_pop-Pops s t.held full t.chain;
  }
  Move-Intact t (read_pop head) = record {
    held = t.held;
    chain = t.chain;
    kept = t.kept;
    links = t.links;
    pops = (t.pops, refl);
  }
  Move-Intact t (swap_pop head next spurious {s} {s'} {ps} {free} e) =
      let (at, same) = swapped spurious head next s s' e in
      subst
        (λ r. Intact nodes (record { stack = r; pushing = ps; popping = idle; free = head ∷ free }))
        same (go t.held t.chain t.kept t.pops)
    where
      go :
          (xs : List ℕ)
          → Chain s.links s.head xs
          → ((a : ℕ) → count a xs + (count a free + in_push a ps) ≡ count a nodes)
          → (0 < count head xs) × (s.links head ≡ next)
          → Intact nodes (record {
            stack = record s { head = next };
            pushing = ps;
            popping = idle;
            free = head ∷ free;
          })
      go [] chain kept pops = absurd (omega (arith, pops.0))
      go (x ∷ xs) chain kept pops =
          let (at, same) = swapped spurious head next s s' e in
          let top : x ≡ head = sym (chain.0) ∙ at in
          record {
            held = xs;
            chain = subst (λ h. Chain s.links h xs) (ap s.links top ∙ pops.1) chain.2;
            kept = λ a. omega (arith, kept a, ap (one_of a) top);
            links = t.links;
            pops = tt;
          }
  Move-Intact t (retry_pop head next spurious {s} {s'} {ps} {free} e) =
      subst (λ r. Intact nodes (record { stack = r; pushing = ps; popping = idle; free = free }))
        (not_swapped spurious head next s s' e)
        (record { held = t.held; chain = t.chain; kept = t.kept; links = t.links; pops = tt })

  History-Intact : {s : System} → History nodes s → Intact nodes s
  History-Intact (opened links) = record {
    held = [];
    chain = refl;
    kept = λ a. omega arith;
    links = tt;
    pops = tt;
  }
  History-Intact (moved h m) = Move-Intact (History-Intact h) m

-- After any history of threads that push, and of one at a time that pops, on nodes that are different
-- and not null, the links lead from the head through a list of nodes to null, and each of the nodes is
-- exactly once in that list, free or in a push.
pub History-Chain :
    {nodes : List ℕ} {s : System}
    → Distinct nodes
    → History nodes s
    → (held : List ℕ) × Chain s.stack.links s.stack.head held
      × ((a : ℕ) → count a held + outside a s ≡ count a nodes)
History-Chain distinct h = let t = History-Intact distinct h in (t.held, t.chain, t.kept)
