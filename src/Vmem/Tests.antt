-- ===== src/Vmem/Tests.antt =====
-- The theorems on arenas, at an arena of one span of three pages.
use libumem.Base.{◌↔◌, ◌≡◌, refl, some, true, false, [], ◌∷◌, ◌==◌, arith}
use libumem.Word.{p2roundup, p2samehighbit}
use libumem.Chains.{push}
use libumem.Chains.Count.{count}
use libumem.Segs.{span, free, Place, locate_alloc}
use libumem.Segs.Sums.{sum_by}
use libumem.Vmem.{
  contains, Vmem, Returned, bucket, vs_size, hash_insert, shrink, carve, seg_alloc, xfree,
}
use libumem.Vmem.Valid.{IsValid}
use libumem.Vmem.SegAlloc.{Fits, seg_alloc-IsValid}
use libumem.Vmem.Size.{InSpan, contains_lem}
use libumem.Vmem.Panic.{IsJudged, xfree_lem}
use libumem.Vmem.Free.{xfree-IsValid}

abbrev three_pages : Vmem
three_pages = record {
  quantum = 4096;
  qshift = 12;
  has_source_free = true;
  segs = span 4096 16384 ∷ free 4096 16384 true ∷ [];
  nsegfree = 10;
  freelist = push (λ i. []) (bucket (vs_size 4096 16384)) 4096;
  freemap = λ i. bucket (vs_size 4096 16384) == i;
  hash = λ i. [];
  hash_shift = 3;
  hash_mask = 15;
  mem_inuse = 0;
  mem_import = 12288;
  mem_total = 12288;
  nalloc = 0;
  nfree = 0;
  nlookup = 0;
}

three_pages-IsValid : IsValid three_pages
unfolding sum_by count push
three_pages-IsValid = record {
  quantum_pow = refl;
  quantum_small = omega arith;
  tiled = ground arith;
  apart = λ x. ground arith;
  lists = record { listed = λ i x. ground arith; mapped = λ i. ground arith };
  hashed = λ i x. refl;
  inuse = refl;
  total = refl;
}

abbrev only_free : Place
only_free = record {
  before = span 4096 16384 ∷ [];
  start = 4096;
  end = 16384;
  import = true;
  after = [];
}

-- One page at the front, on the fast path.
front-Fits : Fits three_pages only_free 4096 4000
front-Fits = record {
  same = refl;
  context = ground arith;
  from = omega arith;
  aligned = refl;
  some_size = omega arith;
  within = omega arith;
}

seg_alloc-IsValid_example : IsValid (seg_alloc three_pages only_free 4096 4000)
seg_alloc-IsValid_example =
    seg_alloc-IsValid three_pages only_free 4096 4000 three_pages-IsValid front-Fits

abbrev one_page : Vmem
one_page = seg_alloc three_pages only_free 4096 4000

abbrev the_page : Place
the_page = record {
  before = span 4096 16384 ∷ [];
  start = 4096;
  end = 8096;
  import = false;
  after = free 8192 16384 true ∷ [];
}

the_page-found : locate_alloc [] one_page.segs 4096 ≡ some the_page
unfolding seg_alloc shrink carve hash_insert locate_alloc p2roundup p2samehighbit
the_page-found = refl

xfree-IsValid_example : (r : Vmem × Returned) × (xfree one_page 4096 4000 ≡ some r) × IsValid (r.0)
xfree-IsValid_example =
    xfree-IsValid one_page the_page 4096 4000
      (seg_alloc-IsValid three_pages only_free 4096 4000 three_pages-IsValid front-Fits)
      the_page-found refl

-- The page may not be freed with another size.
xfree_lem_example : IsJudged one_page 4096 4096 (xfree one_page 4096 4096)
xfree_lem_example =
    xfree_lem one_page 4096 4096
      (seg_alloc-IsValid three_pages only_free 4096 4000 three_pages-IsValid front-Fits)

contains_lem_example :
    (contains three_pages.segs 5000 100 ≡ true) ↔ InSpan 5000 100 three_pages.segs
contains_lem_example =
    contains_lem three_pages 5000 100 three_pages-IsValid (omega arith) (omega arith)
