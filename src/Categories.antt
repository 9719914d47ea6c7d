-- ===== src/Categories.antt =====
-- backend/src/categories/categories.service.ts.
use help_mi.Common.{List, [], ◌∷◌, leb, if◌then◌else◌}
use help_mi.Schema.{Category}
use help_mi.Database.{find_many}
use help_mi.Handler.{Handler}
use help_mi.Handler.Calls.{reads}

-- `orderBy: { sortOrder: 'asc' }`: rows of the same order keep theirs.
unfoldable pub insert_sorted : Category → List Category → List Category
insert_sorted c [] = c ∷ []
insert_sorted c (d ∷ ds) =
    let rest = insert_sorted c ds in if leb c.sort_order d.sort_order then c ∷ d ∷ ds else d ∷ rest

unfoldable pub by_sort_order : List Category → List Category
by_sort_order [] = []
by_sort_order (c ∷ cs) = insert_sorted c (by_sort_order cs)

-- `findAll`
unfoldable pub find_all_categories : Handler (List Category)
find_all_categories = reads (λ w. by_sort_order (find_many (λ c. c.is_active) w.categories))
