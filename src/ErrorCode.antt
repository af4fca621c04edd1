-- ===== src/ErrorCode.antt =====
-- `enum ErrorCode` of shmutil/error_code.h.
pub data ErrorCode : Type 0 where
  k_ok k_err_shm_get k_err_shm_at k_err_shm_init k_err_invalid_params : ErrorCode
  k_err_traverse_table_end k_err_not_found k_err_data_mess k_err_lru_init : ErrorCode
  k_err_set_same_value k_err_not_enough_space k_err_store_kv_failed k_err_shm_not_init : ErrorCode
  k_err_shm_mq_empty k_err_input_buf_not_enough_space k_err_open_lock_file_failed : ErrorCode
  k_err_lock_file_failed k_err_other : ErrorCode
