-- ===== src/PlateSolve/Race.antt =====
-- app/astrojournal/repositories/plate_solve_job_repository.py: what becomes of a job that a worker
-- claims while a deletion, which has read it without a lock, is on its way to its flush.
