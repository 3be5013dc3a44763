-- ===== src/Hostmem/Heap/Tests.antt =====
-- The heap's operations at the sample heap.
use upcie.Prelude.{◌+◌, ◌≡◌, refl, arith, [], ◌∷◌, done}
use upcie.Hostmem.Types.{HostmemHeap}
use upcie.Hostmem.Sample.{heap, first, second, third}
use upcie.Hostmem.Heap.{block_free, coalesce, mark_free, merge, coalesce_list}
use upcie.Hostmem.Heap.Tiles.{Tiles, last, more}
use upcie.Hostmem.Heap.Free.{Released, block_free-Released}

tiled : Tiles 4096 14680064 first (second ∷ third ∷ [])
tiled =
    more first second (third ∷ []) refl (omega arith)
      (more second third [] refl (omega arith) (last third refl))

-- Releasing the block in the middle leaves one free block.
released_whole :
    block_free heap 10498048
    ≡ done (record heap { freelist = record first { size = 4194304 } ∷ [] })
unfolding block_free mark_free coalesce_list coalesce merge
released_whole = refl

block_free-Released_example :
    (heap' : HostmemHeap) × (block_free heap (10493952 + 4096) ≡ done heap')
    × Released heap 14680064 10493952 10485760 heap'
block_free-Released_example =
    block_free-Released heap 14680064 1 first second (second ∷ third ∷ []) (omega arith)
      (omega arith) refl tiled refl (omega arith)
