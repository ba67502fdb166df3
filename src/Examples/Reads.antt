-- ===== src/Examples/Reads.antt =====
-- The theorems on what is read and on the client of the restaurant service at concrete inputs.
use mathlib.Core.List.{Permᴰ}
use spotq_queue_service.Base.{
  refl, leb, or_else, ◌≡◌, ◌≤◌, true, false, none, some, length, filter, arith, String, Bool,
}
use spotq_queue_service.Entity.{QueueEntry}
use spotq_queue_service.Exec.Rules.{Post}
use spotq_queue_service.Repository.Rules.{Fails}
use spotq_queue_service.Repository.Laws.{IsRanking}
use spotq_queue_service.Repository.Pages.{page_size, find_paginated}
use spotq_queue_service.Repository.Pages.Whole.{read_pages, read_pages-whole, find_paginated-bounds}
use spotq_queue_service.UseCases.StaffQueue.{
  Input, all_sizes, get_staff_queue, get_customer_queue_status,
}
use spotq_queue_service.UseCases.StaffQueue.Lines.{IsBoard, get_staff_queue-IsBoard}
use spotq_queue_service.UseCases.StaffQueue.Customer.{IsStatus, get_customer_queue_status_exact}
use spotq_queue_service.RestaurantClient.{
  lets_through, request_failed, broke, domain_error, axios_error, check_is_failure, translate,
  get_restaurant_status, check_availability, assign_tables, release_tables,
}
use spotq_queue_service.RestaurantClient.Failures.{
  IsClientResult, calls-IsClientResult, check_is_failure-translate,
}
use spotq_queue_service.Examples.{memory, memory-Lawful, healthy, evening}

abbrev any_row : QueueEntry → Bool
any_row r = true

abbrev any_order : QueueEntry → QueueEntry → Bool
any_order a b = true

-- The order of the positions, which differ.
abbrev by_rank : QueueEntry → QueueEntry → Bool
by_rank a b = leb (or_else a.position 0) (or_else b.position 0)

by_rank-IsRanking : IsRanking by_rank (filter any_row evening.tables.entries)
by_rank-IsRanking = record {
  total = λ a b h. ground (arith, h);
  transitive = λ a b c h k. ground (arith, h, k);
  untied = ((refl, tt), (tt, tt));
}

abbrev any_id : String → String → Bool
any_id a b = true

abbrev bistro_board : Input
bistro_board = record {
  restaurant_id = "bistro";
  status = none;
  party_size_bucket = some all_sizes;
}

read_pages-whole_example :
    Post
      (λ rows t. (t ≡ evening.tables) × Permᴰ rows (filter any_row evening.tables.entries))
      (λ t. (t ≡ evening.tables) × Fails healthy)
      (read_pages healthy memory any_row by_rank 1 2 evening)
unfolding page_size
read_pages-whole_example =
    read_pages-whole healthy memory memory-Lawful any_row by_rank 2 1 evening by_rank-IsRanking
      (omega arith)

find_paginated-bounds_example :
    Post
      (λ out t.
        (length out.items ≤ page_size 500)
        × (1 ≤ page_size 500)
        × (page_size 500 ≤ 100)
        × (out.total ≡ length (filter any_row evening.tables.entries)))
      (λ t. Fails healthy)
      (find_paginated healthy memory any_row any_order 1 500 evening)
find_paginated-bounds_example =
    find_paginated-bounds healthy memory memory-Lawful any_row any_order 1 500 evening

get_staff_queue-IsBoard_example :
    Post
      (λ out t. (t ≡ evening.tables) × IsBoard evening.tables bistro_board out)
      (λ t. (t ≡ evening.tables) × Fails healthy)
      (get_staff_queue healthy memory any_id bistro_board evening)
get_staff_queue-IsBoard_example =
    get_staff_queue-IsBoard healthy memory memory-Lawful any_id bistro_board evening

get_customer_queue_status_exact_example :
    Post
      (λ out t. (t ≡ evening.tables) × IsStatus "anna" evening.tables.entries out)
      (λ t. (t ≡ evening.tables) × Fails healthy)
      (get_customer_queue_status healthy memory "anna" evening)
get_customer_queue_status_exact_example =
    get_customer_queue_status_exact healthy memory memory-Lawful "anna" evening

calls-IsClientResult_example :
    IsClientResult "bistro"
      (get_restaurant_status lets_through "bistro" (request_failed (some 404)))
    × IsClientResult "bistro"
        (check_availability false lets_through "bistro" (request_failed (some 429)))
    × IsClientResult "bistro" (assign_tables lets_through "bistro" broke)
    × IsClientResult "bistro" (release_tables lets_through "bistro" broke)
calls-IsClientResult_example =
    calls-IsClientResult lets_through false "bistro" (request_failed (some 404))
      (request_failed (some 429)) broke

check_is_failure-translate_example :
    check_is_failure (domain_error (translate "bistro" (axios_error (some 500))))
    ≡ check_is_failure (axios_error (some 500))
check_is_failure-translate_example = check_is_failure-translate "bistro" (some 500)
