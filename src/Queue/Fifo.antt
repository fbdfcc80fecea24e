-- ===== src/Queue/Fifo.antt =====
-- The queue of queue.c is first in, first out.
use mathlib.Core.List.{reverse, reverse-cons, reverse-append, append_assoc}
use thesis_share.Base.{
  suc, ◌+◌, ◌-◌, ◌≡◌, ◌≢◌, refl, ap, false, none, some, List, [], ◌∷◌, ◌++◌, arith, ◌==◌, length,
  length-append,
}
use thesis_share.Memory.{Ptr, null, Heap, write, runs, alloc-some, load-some, release-some, Returns}
use thesis_share.Memory.Chain.{Cells, front, contents, has}
use thesis_share.Queue.{QueueContainer, Queue, init_queue, queue_put_data, queue_pull_data}
use thesis_share.Queue.Links.{
  container, Linked, set_next-some, set_previous-some, Linked-frame, LastLinks, Linked-last, behind,
  Before, Linked-Before, Linked-skip,
}

-- The queue `q` in the heap `h` holds the containers `xs`, the latest first.
pub record IsQueue (h : Heap QueueContainer) (q : Queue) (xs : Cells) : Type 0 where
  pub counts : q.length ≡ length xs
  pub links : Linked h null ((q.start, null) ∷ xs ++ (q.end, null) ∷ [])

-- What the queue stands for: its data, the oldest first.
abbrev pub queued : Cells → List Ptr
queued xs = reverse (contents xs)

put_links :
    (h : Heap QueueContainer) (q : Queue) (f d b e : Ptr) (ys : Cells)
    → Linked h null ((q.start, null) ∷ (b, e) ∷ ys)
    → f ≢ null
    → has f ((q.start, null) ∷ (b, e) ∷ ys) ≡ false
    → Returns
        (λ q' g.
          (q' ≡ record q { length = q.length + 1 })
          × Linked g null ((q.start, null) ∷ (f, d) ∷ (b, e) ∷ ys))
        (queue_put_data f q d h)
unfolding queue_put_data
put_links h q f d b e ys (ns, hs, os, (nb, hb, ob, c)) nf out = (
  record q { length = q.length + 1 },
  h3,
  runs _ (load-some h q.start (container null null b) ns hs) (
      runs _ (alloc-some h f (container d q.start b)) (
        runs _ (load-some h1 q.start (container null null b) ns (ground arith)) (
          runs _ (set_previous-some h1 b f (container e q.start (front ys)) nb (ground arith))
            (runs _ (set_next-some h2 q.start f (container null null b) ns (ground arith)) refl)))),
  (
    refl,
    (
      ns,
      ground arith,
      ground arith,
      (
        nf,
        ground arith,
        ground arith,
        (nb, ground arith, ob, Linked-frame h h3 b ys c λ p i. ground arith),
      ),
    ),
  ),
)
  where
    h1 : Heap QueueContainer
    h1 = write h f (some (container d q.start b))

    h2 : Heap QueueContainer
    h2 = write h1 b (some (container e f (front ys)))

    h3 : Heap QueueContainer
    h3 = write h2 q.start (some (container null null f))

put_into :
    {h : Heap QueueContainer} {q : Queue} {xs : Cells} (f d : Ptr)
    → IsQueue h q xs
    → f ≢ null
    → has f ((q.start, null) ∷ xs ++ (q.end, null) ∷ []) ≡ false
    → Returns (λ q' g. IsQueue g q' ((f, d) ∷ xs)) (queue_put_data f q d h)
put_into {h} {q} {xs = []} f d is nf out =
    let (q', g, run, (e, l)) = put_links h q f d q.end null [] is.links nf out in
    (q', g, run, rw e (record { counts = ground (arith, is.counts); links = l }))
put_into {h} {q} {xs = (b, v) ∷ xs} f d is nf out =
    let (q', g, run, (e, l)) = put_links h q f d b v (xs ++ (q.end, null) ∷ []) is.links nf out in
    (q', g, run, rw e (record { counts = ground (arith, is.counts); links = l }))

-- `queue_put_data`, given an address in no container of the queue, appends the data to what is queued.
pub queue_put_data-append :
    {h : Heap QueueContainer} {q : Queue} {xs : Cells} (f d : Ptr)
    → IsQueue h q xs
    → f ≢ null
    → has f ((q.start, null) ∷ xs ++ (q.end, null) ∷ []) ≡ false
    → Returns
        (λ q' g. IsQueue g q' ((f, d) ∷ xs) × (queued ((f, d) ∷ xs) ≡ queued xs ++ d ∷ []))
        (queue_put_data f q d h)
queue_put_data-append {xs} f d is nf out =
    let (q', g, run, is') = put_into f d is nf out in
    (q', g, run, (is', reverse-cons d (contents xs)))

contents-snoc : (xs : Cells) (x e : Ptr) → contents (xs ++ (x, e) ∷ []) ≡ contents xs ++ e ∷ []
contents-snoc [] x e = refl
contents-snoc ((a, d) ∷ xs) x e = ap (◌∷◌ d) (contents-snoc xs x e)

-- The heap after a pull of the container `x`, with `w` in front of it and the end behind it.
abbrev skipped : Heap QueueContainer → Ptr → QueueContainer → Ptr → Ptr → Heap QueueContainer
skipped h w n x end =
    write
      (write (write h w (some (record n { next_container = end }))) end
        (some (container null w null)))
      x none

pull_run :
    (h : Heap QueueContainer) (q : Queue) (w x e k : Ptr) (n : QueueContainer)
    → q.length ≡ suc k
    → LastLinks h w x e q.end null
    → w ≢ null
    → h w ≡ some n
    → w ≢ x
    → w ≢ q.end
    → queue_pull_data q h ≡ some ((e, record q { length = q.length - 1 }), skipped h w n x q.end)
unfolding queue_pull_data
pull_run h q w x e k n counts ends nw hw nwx nwe =
    let some_left : (q.length == 0) ≡ false = ground (arith, counts) in
    let h1 : Heap QueueContainer = write h w (some (record n { next_container = q.end })) in
    let h2 : Heap QueueContainer = write h1 q.end (some (container null w null)) in
    rw some_left (
      runs _ (load-some h q.end (container null x null) ends.end_ne ends.at_end) (
        runs _ (load-some h x (container e w q.end) ends.last_ne ends.at_last) (
          runs _ (set_next-some h w q.end n nw hw) (
            runs _ (set_previous-some h1 q.end w (container null x null) ends.end_ne (ground arith))
              (runs _ (release-some h2 x (container e w q.end) ends.last_ne (ground arith))
                refl)))))

-- `queue_pull_data` of a queue that is not empty returns the oldest data, takes it off what is
-- queued and frees its container.
pub queue_pull_data-oldest :
    {h : Heap QueueContainer} {q : Queue} (xs : Cells) (x e : Ptr)
    → IsQueue h q (xs ++ (x, e) ∷ [])
    → (queued (xs ++ (x, e) ∷ []) ≡ e ∷ queued xs)
      × Returns (λ (out, q') g. (out ≡ e) × IsQueue g q' xs × (g x ≡ none)) (queue_pull_data q h)
queue_pull_data-oldest {h} {q} xs x e is = (
  rw (contents-snoc xs x e) (reverse-append (contents xs) (e ∷ [])),
  (
    (e, record q { length = q.length - 1 }),
    skipped h w n x q.end,
    pull_run h q w x e (length xs) n counted ends nw hw nwx nwe,
    (
      refl,
      record {
        counts = omega (arith, counted);
        links =
            Linked-skip h (skipped h w n x q.end) null q.start null x e q.end null xs l
              (λ m em. ground (arith, nwx, nwe, hw)) (ground (arith, ends.apart))
              λ b nx ne nw. ground arith;
      },
      ground arith,
    ),
  ),
)
  where
    l : Linked h null ((q.start, null) ∷ xs ++ (x, e) ∷ (q.end, null) ∷ [])
    l = rw (← append_assoc xs ((x, e) ∷ []) ((q.end, null) ∷ [])) is.links

    counted : q.length ≡ suc (length xs)
    counted = omega (arith, is.counts, length-append {0} xs ((x, e) ∷ []))

    w : Ptr
    w = behind q.start xs

    before : Before h w x q.end
    before = Linked-Before h null q.start null x e q.end null xs l

    n : QueueContainer
    n = before.0

    nw : w ≢ null
    nw = before.1

    hw : h w ≡ some n
    hw = before.2

    nwx : w ≢ x
    nwx = before.3

    nwe : w ≢ q.end
    nwe = before.4

    ends : LastLinks h w x e q.end null
    ends = Linked-last h null x e q.end null ((q.start, null) ∷ xs) l

-- `queue_pull_data` of an empty queue returns NULL and changes nothing.
queue_pull_data-empty :
    {h : Heap QueueContainer} {q : Queue}
    → IsQueue h q []
    → queue_pull_data q h ≡ some ((null, q), h)
unfolding queue_pull_data
queue_pull_data-empty is = rw (is.counts)

-- A new queue is empty.
init_queue-IsQueue :
    (h : Heap QueueContainer) (s e : Ptr)
    → s ≢ null
    → e ≢ null
    → s ≢ e
    → Returns (λ q g. IsQueue g q []) (init_queue s e h)
unfolding init_queue
init_queue-IsQueue h s e ns ne nse = (
  record { start = s; end = e; length = 0 },
  write (write h2 s (some (container null null e))) e (some (container null s null)),
  runs _ (alloc-some h s (container null null null)) (
      runs _ (alloc-some h1 e (container null null null)) (
        runs _ (set_next-some h2 s e (container null null null) ns (ground arith)) (
          runs _
            (set_previous-some (write h2 s (some (container null null e))) e s
              (container null null null) ne (ground arith))
            refl))),
  record { counts = refl; links = (ns, ground arith, ground arith, (ne, ground arith, refl, tt)) },
)
  where
    h1 : Heap QueueContainer
    h1 = write h s (some (container null null null))

    h2 : Heap QueueContainer
    h2 = write h1 e (some (container null null null))
